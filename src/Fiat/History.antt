-- ===== src/Fiat/History.antt =====
-- The history of a wallet, as `list_transactions` reads it.
use super_wallet.Base.{◌≡◌, ℕ, suc, ◌≤◌, Bool, ◌&&◌, List, [], ◌∷◌, length, if◌then◌else◌, All}
use super_wallet.Base.Table.{has_row}
use super_wallet.Db.{Db, Uuid, TransactionRecord}
use super_wallet.Fiat.TransactionRepository.{matches, has_id}

-- How many rows satisfy a condition.
abbrev pub count_rows : {A : Type 0} → (A → Bool) → List A → ℕ
count_rows p [] = 0
count_rows p (x ∷ xs) = let rest = count_rows p xs in if p x then suc rest else rest

module _ {A : Type 0} where
  -- Each element is at least those behind it.
  abbrev pub IsDescending : (A → ℕ) → List A → Type 0
  IsDescending key [] = Unit
  IsDescending key (x ∷ xs) = All (λ y. key y ≤ key x) xs × IsDescending key xs

-- Newest first, as many as the total, and a transaction once if it has an entry in the wallet.
abbrev pub IsHistory : Uuid → Db → ℕ → List TransactionRecord → Type 0
IsHistory wallet_id db total history =
    IsDescending (λ t. t.created_at) history
    × (length history ≡ total)
    × ((id : Uuid)
        → count_rows (has_id id) history ≡ (
            if has_row (has_id id) db.transactions
              && has_row (matches wallet_id id) db.ledger_entries
            then 1
            else 0))
