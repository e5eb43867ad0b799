-- ===== src/Base/Queries.antt =====
-- What holds of every row of a table holds of the rows that a query returns, and after an update.
use super_wallet.Base.Tests.{if◌then◌else◌, leb}
use super_wallet.Base.Lists.{All, take}
use super_wallet.Base.Table.{select_rows, update_rows, insert_by, order_by}
use mathlib.Core.Path.{◌≡◌, refl}
use mathlib.Core.Bool.{Bool, true, false}
use mathlib.Core.List.{List, [], ◌∷◌}
use Prim.Native.Nat.{ℕ, zero, suc}

module _ {ℓ κ} {A : Type ℓ} (P : A → Type κ) where
  if_keeps : (b : Bool) (x y : A) → P x → P y → P (if b then x else y)
  if_keeps true x y hx hy = hx
  if_keeps false x y hx hy = hy

  pub All-update_rows :
      (p : A → Bool) (f : A → A) (rows : List A)
      → ((r : A) → P r → P (f r))
      → All P rows
      → All P (update_rows p f rows)
  All-update_rows p f [] h all = tt
  All-update_rows p f (r ∷ rows) h all =
      (if_keeps (p r) (f r) r (h r all.0) all.0, All-update_rows p f rows h all.1)

  All-if : (b : Bool) (xs ys : List A) → All P xs → All P ys → All P (if b then xs else ys)
  All-if true xs ys hx hy = hx
  All-if false xs ys hx hy = hy

  All-insert_by :
      (key : A → ℕ) (a : A) (rows : List A) → P a → All P rows → All P (insert_by key a rows)
  All-insert_by key a [] h all = (h, tt)
  All-insert_by key a (r ∷ rows) h all =
      All-if (leb (key a) (key r)) (a ∷ r ∷ rows) (r ∷ insert_by key a rows) (h, all)
        (all.0, All-insert_by key a rows h all.1)

  pub All-order_by : (key : A → ℕ) (rows : List A) → All P rows → All P (order_by key rows)
  All-order_by key [] all = tt
  All-order_by key (r ∷ rows) all =
      All-insert_by key r (order_by key rows) all.0 (All-order_by key rows all.1)

  pub All-take : (n : ℕ) (rows : List A) → All P rows → All P (take n rows)
  All-take zero rows all = tt
  All-take (suc n) [] all = tt
  All-take (suc n) (r ∷ rows) all = (all.0, All-take n rows all.1)

-- The rows of a query satisfy its condition too.
module _ {ℓ κ ι} {A : Type ℓ} (P : A → Type κ) (Q : A → Type ι) where
  All-if_then :
      (b : Bool) (r : A) (rows : List A)
      → (b ≡ true → Q r)
      → All Q rows
      → All Q (if b then r ∷ rows else rows)
  All-if_then true r rows h all = (h refl, all)
  All-if_then false r rows h all = all

  pub All-select_rows :
      (p : A → Bool) (rows : List A)
      → ((r : A) → P r → p r ≡ true → Q r)
      → All P rows
      → All Q (select_rows p rows)
  All-select_rows p [] h all = tt
  All-select_rows p (r ∷ rows) h all =
      All-if_then (p r) r (select_rows p rows) (h r all.0) (All-select_rows p rows h all.1)
