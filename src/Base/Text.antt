-- ===== src/Base/Text.antt =====
-- Python's texts by their code points: length, case, and the space around a text.
use Prim.Native.Nat.{ℕ}
use Prim.Native.Char.{Char, code}
use Prim.Native.String.{String}
use mathlib.Core.Path.{◌≡◌, refl, ap}
use mathlib.Core.Logic.{◌⊎◌, inl, inr}
use mathlib.Core.Bool.{Bool, true, false, ◌&&◌, ◌||◌}
use mathlib.Core.List.{List, [], ◌∷◌}
use super_wallet.Base.Lists.{length}
use super_wallet.Base.Tests.{◌==◌, leb, if◌then◌else◌}

abbrev pub codes : String → List ℕ
codes String.[] = []
codes (String.◌∷◌ c s) = code c ∷ codes s

abbrev pub count : String → ℕ
count s = length (codes s)

-- What a column VARCHAR(n) takes. (A text whose excess is spaces only, which PostgreSQL cuts, is
-- refused here too.)
abbrev pub fits_varchar : ℕ → String → Bool
fits_varchar n s = leb (count s) n

-- The character that stands in the second text where `c` stands in the first.
abbrev translate : String → String → Char → Char
translate (String.◌∷◌ x xs) (String.◌∷◌ y ys) c =
    let rest = translate xs ys c in if code x == code c then y else rest
translate _ _ c = c

upper_char : Char → Char
upper_char c = translate "abcdefghijklmnopqrstuvwxyz" "ABCDEFGHIJKLMNOPQRSTUVWXYZ" c

-- `str.upper` on ASCII letters; other characters stay as they are here.
unfoldable pub upper : String → String
unfolding upper_char
upper String.[] = String.[]
upper (String.◌∷◌ c s) = String.◌∷◌ (upper_char c) (upper s)

lower_char : Char → Char
lower_char c = translate "ABCDEFGHIJKLMNOPQRSTUVWXYZ" "abcdefghijklmnopqrstuvwxyz" c

-- `str.lower`, likewise.
unfoldable pub lower : String → String
unfolding lower_char
lower String.[] = String.[]
lower (String.◌∷◌ c s) = String.◌∷◌ (lower_char c) (lower s)

-- The code points of Unicode's property White_Space.
unfoldable pub is_space : ℕ → Bool
is_space n =
    (leb 9 n && leb n 13)
    || (leb 8192 n && leb n 8202)
    || n == 32
    || n == 133
    || n == 160
    || n == 5760
    || n == 8232
    || n == 8233
    || n == 8239
    || n == 8287
    || n == 12288

abbrev pub is_empty : String → Bool
is_empty String.[] = true
is_empty (String.◌∷◌ _ _) = false

unfoldable pub trim_left : (ℕ → Bool) → String → String
trim_left space String.[] = String.[]
trim_left space (String.◌∷◌ c s) = if space (code c) then trim_left space s else String.◌∷◌ c s

abbrev pub trimmed : (ℕ → Bool) → Char → String → String
trimmed space c rest = if is_empty rest && space (code c) then String.[] else String.◌∷◌ c rest

unfoldable pub trim_right : (ℕ → Bool) → String → String
trim_right space String.[] = String.[]
trim_right space (String.◌∷◌ c s) = trimmed space c (trim_right space s)

-- What `str_strip_whitespace` of pydantic does.
unfoldable pub strip : String → String
strip s = trim_right is_space (trim_left is_space s)

-- The last code point is a space.
abbrev pub ends_with_space : List ℕ → Bool
ends_with_space [] = false
ends_with_space (n ∷ []) = is_space n
ends_with_space (n ∷ m ∷ ns) = ends_with_space (m ∷ ns)

ends_with_space-single :
    (c : Char) (b : Bool)
    → is_space (code c) ≡ b
    → ends_with_space (codes (if b then String.[] else String.◌∷◌ c String.[])) ≡ false
ends_with_space-single c true e = refl
ends_with_space-single c false e = e

ends_with_space-trimmed :
    (c : Char) (rest : String)
    → ends_with_space (codes rest) ≡ false
    → ends_with_space (codes (trimmed is_space c rest)) ≡ false
ends_with_space-trimmed c String.[] h = ends_with_space-single c (is_space (code c)) refl
ends_with_space-trimmed c (String.◌∷◌ d s) h = h

ends_with_space-trim_right : (s : String) → ends_with_space (codes (trim_right is_space s)) ≡ false
unfolding trim_right
ends_with_space-trim_right String.[] = refl
ends_with_space-trim_right (String.◌∷◌ c s) =
    ends_with_space-trimmed c (trim_right is_space s) (ends_with_space-trim_right s)

-- A stripped text does not end with a space.
pub ends_with_space-strip : (s : String) → ends_with_space (codes (strip s)) ≡ false
unfolding strip
ends_with_space-strip s = ends_with_space-trim_right (trim_left is_space s)

AllFixed : String → Type 0
AllFixed String.[] = Unit
AllFixed (String.◌∷◌ y ys) = (lower_char y ≡ y) × AllFixed ys

fixed_if :
    (b : Bool) (y c rest : Char)
    → lower_char y ≡ y
    → (rest ≡ c) ⊎ (lower_char rest ≡ rest)
    → ((if b then y else rest) ≡ c) ⊎ (lower_char (if b then y else rest) ≡ (if b then y else rest))
fixed_if true y c rest fixed later = inr fixed
fixed_if false y c rest fixed later = later

-- A character that is translated is one of the second text, or stays.
translate_fixed :
    (xs ys : String) (c : Char)
    → AllFixed ys
    → (translate xs ys c ≡ c) ⊎ (lower_char (translate xs ys c) ≡ translate xs ys c)
unfolding AllFixed
translate_fixed String.[] ys c all = inl refl
translate_fixed (String.◌∷◌ x xs) String.[] c all = inl refl
translate_fixed (String.◌∷◌ x xs) (String.◌∷◌ y ys) c all =
    fixed_if (code x == code c) y c (translate xs ys c) all.0 (translate_fixed xs ys c all.1)

letters_fixed : AllFixed "abcdefghijklmnopqrstuvwxyz"
unfolding AllFixed lower_char
letters_fixed = (
  refl,
  (
    refl,
    (
      refl,
      (
        refl,
        (
          refl,
          (
            refl,
            (
              refl,
              (
                refl,
                (
                  refl,
                  (
                    refl,
                    (
                      refl,
                      (
                        refl,
                        (
                          refl,
                          (
                            refl,
                            (
                              refl,
                              (
                                refl,
                                (
                                  refl,
                                  (
                                    refl,
                                    (
                                      refl,
                                      (refl, (refl, (refl, (refl, (refl, (refl, (refl, tt))))))),
                                    ),
                                  ),
                                ),
                              ),
                            ),
                          ),
                        ),
                      ),
                    ),
                  ),
                ),
              ),
            ),
          ),
        ),
      ),
    ),
  ),
)

lower_char_idem : (c : Char) → lower_char (lower_char c) ≡ lower_char c
unfolding lower_char
lower_char_idem c =
    elim (translate_fixed "ABCDEFGHIJKLMNOPQRSTUVWXYZ" "abcdefghijklmnopqrstuvwxyz" c
      letters_fixed) [ inl same ↦ ap lower_char same | inr fixed ↦ fixed ]

pub lower_idem : (s : String) → lower (lower s) ≡ lower s
unfolding lower
lower_idem String.[] = refl
lower_idem (String.◌∷◌ c s) = cc (lower_char_idem c, lower_idem s)
