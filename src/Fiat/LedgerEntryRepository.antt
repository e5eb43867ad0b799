-- ===== src/Fiat/LedgerEntryRepository.antt =====
-- class LedgerEntryRepository of app/fiat/repository.py.
use super_wallet.Base.{
  ℕ, String, ◌==◌, Bool, not, ◌&&◌, List, [], ◌∷◌, ◌++◌, take, drop, if◌then◌else◌,
}
use super_wallet.Base.Int.{ℤ, pos, ◌+ℤ◌}
use super_wallet.Base.Table.{has_row, select_rows, order_by_desc}
use super_wallet.Errors.{data_error, unique_violation, foreign_key_violation}
use super_wallet.Db.{LedgerEntryRecord, Uuid, Timestamp, Action, pure, gets, modify, raise_if, ◌>>◌}
use super_wallet.Fiat.Columns.{fits_bigint}

abbrev pub has_id : Uuid → LedgerEntryRecord → Bool
has_id id e = e.id == id

abbrev pub new_entry : Timestamp → Uuid → Uuid → Uuid → ℤ → String → ℤ → LedgerEntryRecord
new_entry now id transaction_id wallet_id amount_minor direction balance_after = record {
  id = id;
  transaction_id = transaction_id;
  wallet_id = wallet_id;
  amount_minor = amount_minor;
  direction = direction;
  balance_after = balance_after;
  created_at = now;
}

unfoldable pub create : Timestamp → Uuid → Uuid → Uuid → ℤ → String → ℤ → Action LedgerEntryRecord
create now id transaction_id wallet_id amount_minor direction balance_after = do
  let entry = new_entry now id transaction_id wallet_id amount_minor direction balance_after
  raise_if (not (fits_bigint amount_minor && fits_bigint balance_after)) data_error
  λ db. raise_if (has_row (has_id id) db.ledger_entries) (unique_violation "ledger_entries_pkey") db
  λ db.
      raise_if (not (has_row (λ t. t.id == transaction_id) db.transactions))
        (foreign_key_violation "ledger_entries_transaction_id_fkey") db
  λ db.
      raise_if (not (has_row (λ w. w.id == wallet_id) db.wallets))
        (foreign_key_violation "ledger_entries_wallet_id_fkey") db
  modify (λ db. record db { ledger_entries = db.ledger_entries ++ entry ∷ [] })
  pure entry

-- `COALESCE(SUM(amount_minor), 0)` over the entries of a wallet.
abbrev pub sum_entries : Uuid → List LedgerEntryRecord → ℤ
sum_entries wallet_id [] = pos 0
sum_entries wallet_id (e ∷ es) =
    if e.wallet_id == wallet_id
    then e.amount_minor +ℤ sum_entries wallet_id es
    else sum_entries wallet_id es

unfoldable pub sum_for_wallet : Uuid → Action ℤ
sum_for_wallet wallet_id = gets (λ db. sum_entries wallet_id db.ledger_entries)

-- `scan` is the order in which the rows are read that are then sorted, which SQL leaves open.
unfoldable pub list_for_wallet :
    (List LedgerEntryRecord → List LedgerEntryRecord)
    → Uuid
    → ℕ
    → ℕ
    → Action (List LedgerEntryRecord)
list_for_wallet scan wallet_id limit offset = gets (λ db. take limit (
    drop offset (
      order_by_desc (λ e. e.created_at)
        (scan (select_rows (λ e. e.wallet_id == wallet_id) db.ledger_entries)))))
