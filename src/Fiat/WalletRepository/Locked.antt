-- ===== src/Fiat/WalletRepository/Locked.antt =====
-- What `get_and_lock_multiple` locks, and in which order.
use super_wallet.Base.{
  ◌∙◌, ℕ, ◌==◌, ◌≡◌, refl, Bool, true, false, none, some, List, [], ◌∷◌, arith, if◌then◌else◌,
}
use super_wallet.Base.Table.{
  find_row, has_row, select_rows, insert_by, order_by, find_row-none_of_has,
}
use super_wallet.Fiat.Service.{wallet_map}
use super_wallet.Db.{WalletRecord, Uuid}
use super_wallet.Fiat.WalletRepository.{has_id, contains}

-- The primary key of `wallets`.
abbrev pub UniqueIds : List WalletRecord → Type 0
UniqueIds [] = Unit
UniqueIds (w ∷ ws) = (has_row (has_id w.id) ws ≡ false) × UniqueIds ws

abbrev wallet_id_of : WalletRecord → Uuid
wallet_id_of w = w.id

wallet_map-insert_by :
    (w : WalletRecord) (ws : List WalletRecord) (k : Uuid)
    → wallet_map ws w.id ≡ none
    → wallet_map (insert_by wallet_id_of w ws) k ≡ (if w.id == k then some w else wallet_map ws k)
wallet_map-insert_by w [] k h = ground arith
wallet_map-insert_by w (x ∷ xs) k h = ground (arith, wallet_map-insert_by w xs k)

wallet_map-order_by :
    (ws : List WalletRecord) (k : Uuid)
    → UniqueIds ws
    → wallet_map (order_by wallet_id_of ws) k ≡ find_row (has_id k) ws
wallet_map-order_by [] k u = refl
wallet_map-order_by (w ∷ ws) k u = ground (
  arith,
  wallet_map-insert_by w (order_by wallet_id_of ws) k,
  wallet_map-order_by ws k u.1,
  wallet_map-order_by ws w.id u.1,
  find_row-none_of_has (has_id w.id) ws,
)

contains-insert_by :
    (a k : ℕ) (xs : List ℕ)
    → contains (insert_by (λ i. i) a xs) k ≡ (if a == k then true else contains xs k)
contains-insert_by a k [] = refl
contains-insert_by a k (x ∷ xs) = ground (arith, contains-insert_by a k xs)

pub contains-order_by : (ids : List ℕ) (k : ℕ) → contains (order_by (λ i. i) ids) k ≡ contains ids k
contains-order_by [] k = refl
contains-order_by (x ∷ xs) k =
    ground (arith, contains-insert_by x k (order_by (λ i. i) xs), contains-order_by xs k)

find_row-select_rows :
    (ids : List Uuid) (ws : List WalletRecord) (k : Uuid)
    → contains ids k ≡ true
    → find_row (has_id k) (select_rows (λ w. contains ids w.id) ws) ≡ find_row (has_id k) ws
find_row-select_rows ids [] k h = refl
find_row-select_rows ids (w ∷ ws) k h = ground (arith, find_row-select_rows ids ws k h)

has_row-select_rows :
    (p q : WalletRecord → Bool) (ws : List WalletRecord)
    → has_row p ws ≡ false
    → has_row p (select_rows q ws) ≡ false
has_row-select_rows p q [] h = refl
has_row-select_rows p q (w ∷ ws) h = ground (arith, has_row-select_rows p q ws)

select_rows-UniqueIds :
    (q : WalletRecord → Bool) (ws : List WalletRecord) → UniqueIds ws → UniqueIds (select_rows q ws)
select_rows-UniqueIds q [] u = tt
select_rows-UniqueIds q (w ∷ ws) u =
    ground (arith, has_row-select_rows (has_id w.id) q ws u.0, select_rows-UniqueIds q ws u.1)

-- The dictionary of the locked rows has each of the wanted wallets as its table has it.
pub wallet_map-locked :
    (a b : Uuid) (ws : List WalletRecord) (k : Uuid)
    → UniqueIds ws
    → contains (a ∷ b ∷ []) k ≡ true
    → let ids = order_by (λ (i : ℕ). i) (a ∷ b ∷ []) in
      wallet_map
        (order_by
          (λ (w : WalletRecord). w.id)
          (select_rows (λ (w : WalletRecord). contains ids w.id) ws))
        k
      ≡ find_row (has_id k) ws
wallet_map-locked a b ws k u h =
    let ids : List ℕ = order_by (λ (i : ℕ). i) (a ∷ b ∷ []) in
    wallet_map-order_by (select_rows (λ w. contains ids w.id) ws) k (select_rows-UniqueIds _ ws u)
    ∙ find_row-select_rows ids ws k (contains-order_by (a ∷ b ∷ []) k ∙ h)
