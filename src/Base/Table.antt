-- ===== src/Base/Table.antt =====
-- SQL tables as lists of rows in insertion order: the reads and writes that the statements of the
-- repositories are made of.
use Prim.Native.Nat.{ℕ}
use mathlib.Core.Path.{◌≡◌, refl, subst}
use mathlib.Core.Logic.{inl, inr}
use mathlib.Core.Bool.{false≢true, Bool, true, false}
use mathlib.Core.Option.{Option, none, some}
use mathlib.Core.List.{List, [], ◌∷◌, ◌++◌}
use native.Mathlib.Omega.{arith}
use super_wallet.Base.Tests.{if◌then◌else◌, leb, Bool-cases}
use super_wallet.Base.Lists.{All}

module _ {ℓ} {A : Type ℓ} where
  -- `SELECT * … WHERE p` of a query that returns one row.
  abbrev pub find_row : (A → Bool) → List A → Option A
  find_row p [] = none
  find_row p (x ∷ xs) = if p x then some x else find_row p xs

  abbrev pub has_row : (A → Bool) → List A → Bool
  has_row p [] = false
  has_row p (x ∷ xs) = if p x then true else has_row p xs

  -- `SELECT * … WHERE p`
  abbrev pub select_rows : (A → Bool) → List A → List A
  select_rows p [] = []
  select_rows p (x ∷ xs) = if p x then x ∷ select_rows p xs else select_rows p xs

  -- `UPDATE … SET f WHERE p`
  abbrev pub update_rows : (A → Bool) → (A → A) → List A → List A
  update_rows p f [] = []
  update_rows p f (x ∷ xs) = (if p x then f x else x) ∷ update_rows p f xs

  -- `ORDER BY key`: rows that compare equal keep their order.
  abbrev pub insert_by : (A → ℕ) → A → List A → List A
  insert_by key a [] = a ∷ []
  insert_by key a (x ∷ xs) = if leb (key a) (key x) then a ∷ x ∷ xs else x ∷ insert_by key a xs

  abbrev pub order_by : (A → ℕ) → List A → List A
  order_by key [] = []
  order_by key (x ∷ xs) = insert_by key x (order_by key xs)

  -- `ORDER BY key DESC`
  abbrev pub insert_by_desc : (A → ℕ) → A → List A → List A
  insert_by_desc key a [] = a ∷ []
  insert_by_desc key a (x ∷ xs) =
      if leb (key x) (key a) then a ∷ x ∷ xs else x ∷ insert_by_desc key a xs

  abbrev pub order_by_desc : (A → ℕ) → List A → List A
  order_by_desc key [] = []
  order_by_desc key (x ∷ xs) = insert_by_desc key x (order_by_desc key xs)

  pub has_row-append_old :
      (p : A → Bool) (xs : List A) (a : A) → has_row p xs ≡ true → has_row p (xs ++ a ∷ []) ≡ true
  has_row-append_old p [] a h = cc
  has_row-append_old p (x ∷ xs) a h = ground (arith, has_row-append_old p xs a)

  pub has_row-append :
      (p : A → Bool) (xs : List A) (a : A)
      → has_row p (xs ++ a ∷ []) ≡ (if has_row p xs then true else p a)
  has_row-append p [] a = ground arith
  has_row-append p (x ∷ xs) a = ground (arith, has_row-append p xs a)

  pub has_row-find_row :
      (p : A → Bool) (xs : List A) (a : A) → find_row p xs ≡ some a → has_row p xs ≡ true
  has_row-find_row p [] a h = cc
  has_row-find_row p (x ∷ xs) a h = ground (arith, has_row-find_row p xs a)

  pub find_row-none_of_has :
      (p : A → Bool) (xs : List A) → has_row p xs ≡ false → find_row p xs ≡ none
  find_row-none_of_has p [] h = refl
  find_row-none_of_has p (x ∷ xs) h = ground (arith, find_row-none_of_has p xs)

  pub find_row_of_has :
      (p : A → Bool) (xs : List A) → has_row p xs ≡ true → (a : A) × (find_row p xs ≡ some a)
  find_row_of_has p [] h = absurd (false≢true h)
  find_row_of_has p (x ∷ xs) h = elim (Bool-cases (p x)) [
    | inl e ↦ (x, rw e)
    | inr e ↦ rw e (find_row_of_has p xs (ground arith))
  ]

  pub has_row_of_find_none :
      (p : A → Bool) (xs : List A) → find_row p xs ≡ none → has_row p xs ≡ false
  has_row_of_find_none p [] h = refl
  has_row_of_find_none p (x ∷ xs) h = ground (arith, has_row_of_find_none p xs)

  -- The row that a query returns satisfies its condition.
  pub find_row-holds : (p : A → Bool) (xs : List A) (a : A) → find_row p xs ≡ some a → p a ≡ true
  find_row-holds p [] a h = cc
  find_row-holds p (x ∷ xs) a h = elim (Bool-cases (p x)) [
    | inl e ↦ ground arith
    | inr e ↦ find_row-holds p xs a (ground arith)
  ]

  pub find_row-append_old :
      (p : A → Bool) (xs : List A) (a b : A)
      → find_row p xs ≡ some b
      → find_row p (xs ++ a ∷ []) ≡ some b
  find_row-append_old p [] a b h = cc
  find_row-append_old p (x ∷ xs) a b h = ground (arith, find_row-append_old p xs a b)

  pub find_row-append :
      (p : A → Bool) (xs : List A) (a : A)
      → find_row p xs ≡ none
      → find_row p (xs ++ a ∷ []) ≡ (if p a then some a else none)
  find_row-append p [] a h = refl
  find_row-append p (x ∷ xs) a h = ground (arith, find_row-append p xs a)

  -- A query after an update that its condition does not see.
  pub find_row-update_rows :
      (p q : A → Bool) (f : A → A) (xs : List A) (a : A)
      → ((x : A) → p (f x) ≡ p x)
      → find_row p xs ≡ some a
      → find_row p (update_rows q f xs) ≡ some (if q a then f a else a)
  find_row-update_rows p q f [] a keep h = cc
  find_row-update_rows p q f (x ∷ xs) a keep h =
      ground (arith, keep x, find_row-update_rows p q f xs a keep)

  pub find_row-append_miss :
      (p : A → Bool) (xs : List A) (a : A) → p a ≡ false → find_row p (xs ++ a ∷ []) ≡ find_row p xs
  find_row-append_miss p [] a h = rw h refl
  find_row-append_miss p (x ∷ xs) a h = ground (arith, find_row-append_miss p xs a h)

  -- A query after an update of other rows.
  pub find_row-update_rows_apart :
      (p q : A → Bool) (f : A → A) (xs : List A)
      → ((x : A) → p (f x) ≡ p x)
      → ((x : A) → p x ≡ true → q x ≡ false)
      → find_row p (update_rows q f xs) ≡ find_row p xs
  find_row-update_rows_apart p q f [] keep apart = refl
  find_row-update_rows_apart p q f (x ∷ xs) keep apart =
      let ih = find_row-update_rows_apart p q f xs keep apart in
      elim (Bool-cases (p x)) [
        | inl hit ↦ rw (apart x hit, hit) refl
        | inr miss ↦ elim (Bool-cases (q x)) [
          | inl updated ↦ rw (updated, keep x, miss) ih
          | inr kept ↦ rw (kept, miss) ih
        ]
      ]

  pub has_row-update_rows :
      (p q : A → Bool) (f : A → A) (xs : List A)
      → ((x : A) → p (f x) ≡ p x)
      → has_row p (update_rows q f xs) ≡ has_row p xs
  has_row-update_rows p q f [] keep = refl
  has_row-update_rows p q f (x ∷ xs) keep =
      ground (arith, keep x, has_row-update_rows p q f xs keep)

  pub All-find_row {κ} :
      (P : A → Type κ) (p : A → Bool) (xs : List A) (a : A)
      → All P xs
      → find_row p xs ≡ some a
      → P a
  All-find_row P p [] a h e = cc
  All-find_row P p (x ∷ xs) a h e = elim (Bool-cases (p x)) [
    | inl hit ↦ subst P (ground arith) h.0
    | inr miss ↦ All-find_row P p xs a h.1 (ground arith)
  ]
