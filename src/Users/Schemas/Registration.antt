-- ===== src/Users/Schemas/Registration.antt =====
-- What a registration that its request model accepts says.
use super_wallet.Base.{
  subst, All, ◌⊎◌, ◌≡◌, refl, ap, sym, ◌∙◌, arith, ℕ, ◌≤◌, String, Bool, true, false, not, leb,
  ◌&&◌, ◌||◌, some, List, [], ◌∷◌,
}
use super_wallet.Base.Text.{
  codes, lower, strip, lower_idem, ends_with_space, ends_with_space-strip, is_space,
}
use super_wallet.Http.{Validators, check, count, bind-eq-some, check-eq-some, some_injective}
use super_wallet.Users.Schemas.Auth.{
  all, is_word, RegisterRequest, register_request, validate_username, validate_password,
  validate_password_strength, normalized_email, matches_username, is_username, before_last_newline,
  sized, is_common,
}

before_last_newline_none : (ns : List ℕ) → ends_with_space ns ≡ false → before_last_newline ns ≡ ns
unfolding is_space
before_last_newline_none [] h = refl
before_last_newline_none (n ∷ []) h = ground arith
before_last_newline_none (n ∷ m ∷ ns) h = ap (◌∷◌ n) (before_last_newline_none (m ∷ ns) h)

-- `[a-zA-Z0-9_]`, by the ranges of its code points.
abbrev pub IsWordChar : ℕ → Type 0
IsWordChar n = ((97 ≤ n) × (n ≤ 122)) ⊎ ((65 ≤ n) × (n ≤ 90)) ⊎ ((48 ≤ n) × (n ≤ 57)) ⊎ (n ≡ 95)

is_word_sound : (n : ℕ) → is_word n ≡ true → IsWordChar n
is_word_sound n h = ground arith

all_word_sound : (ns : List ℕ) → all is_word ns ≡ true → All IsWordChar ns
all_word_sound [] h = tt
all_word_sound (n ∷ ns) h = (is_word_sound n (ground arith), all_word_sound ns (ground arith))

-- What a handler may rely on of a registration.
pub record IsRegistrable (r : RegisterRequest) : Type 0 where
  pub lower_case : lower r.email ≡ r.email
  pub username_chars : All IsWordChar (codes r.username)
  pub username_long : 3 ≤ count r.username
  pub username_short : count r.username ≤ 32
  pub password_long : 8 ≤ count r.password
  pub password_short : count r.password ≤ 128
  pub uncommon : is_common (lower r.password) ≡ false

pub normalized_email-lower :
    (v : Validators) (raw : String) {email : String}
    → normalized_email v raw ≡ some email
    → lower email ≡ email
unfolding normalized_email
normalized_email-lower v raw {email} h =
    let (e, _, same) = bind-eq-some (v.validate_email (strip raw)) (λ e. some (lower e)) h in
    let k : lower e ≡ email = cc in ap lower (sym k) ∙ lower_idem e ∙ k

within_of_test : (lo hi n : ℕ) → (leb lo n && leb n hi) ≡ true → (lo ≤ n) × (n ≤ hi)
within_of_test lo hi n h = ground arith

sized-eq-some :
    (lo hi : ℕ) (raw value : String)
    → sized lo hi raw ≡ some value
    → (raw ≡ value) × (lo ≤ count value) × (count value ≤ hi)
sized-eq-some lo hi raw value h =
    let (ok, same) = check-eq-some (leb lo (count raw) && leb (count raw) hi) raw value h in
    let (low, high) = within_of_test lo hi (count raw) ok in
    (same, subst (λ t. lo ≤ count t) same low, subst (λ t. count t ≤ hi) same high)

ground_match : (ns : List ℕ) → (is_username ns || is_username ns) ≡ true → all is_word ns ≡ true
ground_match ns h = ground arith

false_of_not : (b : Bool) → not b ≡ true → b ≡ false
false_of_not b h = ground arith

word_of_match :
    (ns : List ℕ)
    → before_last_newline ns ≡ ns
    → (is_username ns || is_username (before_last_newline ns)) ≡ true
    → all is_word ns ≡ true
word_of_match ns whole h = ground_match ns (rw whole at h)

validate_username-eq-some :
    (raw username : String)
    → validate_username raw ≡ some username
    → All IsWordChar (codes username) × (3 ≤ count username) × (count username ≤ 32)
unfolding validate_username matches_username
validate_username-eq-some raw username h =
    let (u, fits, rest) =
      bind-eq-some (sized 3 32 (strip raw)) (λ u. check (matches_username u) u) h in
    let (stripped, low, high) = sized-eq-some 3 32 (strip raw) u fits in
    let (ok, same) = check-eq-some (matches_username u) u username rest in
    let whole =
      subst (λ t. before_last_newline (codes t) ≡ codes t) stripped
        (before_last_newline_none (codes (strip raw)) (ends_with_space-strip raw)) in
    subst (λ t. All IsWordChar (codes t) × (3 ≤ count t) × (count t ≤ 32)) same
      (all_word_sound (codes u) (word_of_match (codes u) whole ok), low, high)

validate_password-eq-some :
    (raw password : String)
    → validate_password raw ≡ some password
    → (8 ≤ count password) × (count password ≤ 128) × (is_common (lower password) ≡ false)
unfolding validate_password validate_password_strength
validate_password-eq-some raw password h =
    let (sized_one, fits, rest) =
      bind-eq-some (sized 8 128 (strip raw)) validate_password_strength h in
    let (_, low, high) = sized-eq-some 8 128 (strip raw) sized_one fits in
    let (a, first, rest') = bind-eq-some (check (leb 8 (count sized_one)) sized_one) _ rest in
    let (b, second, rest'') = bind-eq-some (check (leb (count a) 128) a) _ rest' in
    let (ok, same) = check-eq-some (not (is_common (lower b))) b password rest'' in
    let (_, same_a) = check-eq-some (leb 8 (count sized_one)) sized_one a first in
    let (_, same_b) = check-eq-some (leb (count a) 128) a b second in
    let whole = same_a ∙ same_b ∙ same in
    (
      subst (λ t. 8 ≤ count t) whole low,
      subst (λ t. count t ≤ 128) whole high,
      subst (λ t. is_common (lower t) ≡ false) same (false_of_not (is_common (lower b)) ok),
    )

-- What a registration that is accepted says: the address is in lower case, the username has 3 to 32
-- ASCII letters, digits and underscores, the password has 8 to 128 characters and its lower case is
-- none of the common ones.
pub register_request-IsRegistrable :
    (v : Validators) (raw_email raw_username raw_password : String) (r : RegisterRequest)
    → register_request v raw_email raw_username raw_password ≡ some r
    → IsRegistrable r
unfolding register_request
register_request-IsRegistrable v raw_email raw_username raw_password r h =
    let (email, at_email, rest) = bind-eq-some (normalized_email v raw_email) _ h in
    let (username, at_username, rest') = bind-eq-some (validate_username raw_username) _ rest in
    let (password, at_password, rest'') = bind-eq-some (validate_password raw_password) _ rest' in
    let (chars, low, high) = validate_username-eq-some raw_username username at_username in
    let (long, short, rare) = validate_password-eq-some raw_password password at_password in
    subst IsRegistrable (some_injective rest'') (record {
      lower_case = normalized_email-lower v raw_email at_email;
      username_chars = chars;
      username_long = low;
      username_short = high;
      password_long = long;
      password_short = short;
      uncommon = rare;
    })
