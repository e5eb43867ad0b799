-- ===== src/Fiat/TransactionRepository.antt =====
-- class TransactionRepository of app/fiat/repository.py.
use super_wallet.Base.{
  ℕ, String, str_eq, ◌==◌, Bool, not, ◌&&◌, Option, none, some, List, [], ◌∷◌, ◌++◌, length, take,
  drop, if◌then◌else◌,
}
use super_wallet.Base.Int.{ℤ}
use super_wallet.Base.Table.{find_row, has_row, order_by_desc}
use super_wallet.Errors.{data_error, unique_violation}
use super_wallet.Db.{
  TransactionRecord, LedgerEntryRecord, Uuid, Timestamp, Json, Action, pure, gets, modify, raise_if,
  ◌>>◌,
}
use super_wallet.Base.Text.{fits_varchar}
use super_wallet.Fiat.Columns.{fits_bigint}

abbrev pub has_key : String → TransactionRecord → Bool
has_key key t = str_eq t.idempotency_key key

abbrev pub has_id : Uuid → TransactionRecord → Bool
has_id id t = t.id == id

-- `json.dumps(metadata) if metadata else None`: an empty dictionary is stored as NULL.
abbrev pub stored : Option Json → Option Json
stored none = none
stored (some []) = none
stored (some (x ∷ xs)) = some (x ∷ xs)

abbrev pub new_transaction :
    Timestamp → Uuid → String → String → ℤ → String → Option Json → TransactionRecord
new_transaction now id key tx_type amount_minor currency metadata = record {
  id = id;
  idempotency_key = key;
  type = tx_type;
  status = "completed";
  amount_minor = amount_minor;
  currency = currency;
  metadata = stored metadata;
  created_at = now;
}

abbrev insert_row : TransactionRecord → Action (Option TransactionRecord)
insert_row t = do
  λ db. raise_if (has_row (has_id t.id) db.transactions) (unique_violation "transactions_pkey") db
  modify (λ db. record db { transactions = db.transactions ++ t ∷ [] })
  pure (some t)

-- VARCHAR(255), VARCHAR(20) and VARCHAR(3).
abbrev pub texts_fit : String → String → String → Bool
texts_fit key tx_type currency =
    fits_varchar 255 key && fits_varchar 20 tx_type && fits_varchar 3 currency

-- `INSERT … ON CONFLICT (idempotency_key) DO NOTHING RETURNING *`
unfoldable pub create :
    Timestamp
    → Uuid
    → String
    → String
    → ℤ
    → String
    → Option Json
    → Action (Option TransactionRecord)
create now id key tx_type amount_minor currency metadata = do
  raise_if (not (fits_bigint amount_minor)) data_error
  raise_if (not (texts_fit key tx_type currency)) data_error
  λ db.
      if has_row (has_key key) db.transactions
      then (pure none db)
      else (insert_row (new_transaction now id key tx_type amount_minor currency metadata) db)

unfoldable pub get_by_idempotency_key : String → Action (Option TransactionRecord)
get_by_idempotency_key key = gets (λ db. find_row (has_key key) db.transactions)

-- `transactions t JOIN ledger_entries le ON t.id = le.transaction_id WHERE le.wallet_id = $1`: a
-- transaction stands in the join once for each of its entries in the wallet.
abbrev pub matches : Uuid → Uuid → LedgerEntryRecord → Bool
matches wallet_id id le = le.transaction_id == id && le.wallet_id == wallet_id

abbrev pub copies : Uuid → TransactionRecord → List LedgerEntryRecord → List TransactionRecord
copies wallet_id t [] = []
copies wallet_id t (le ∷ les) =
    if matches wallet_id t.id le then t ∷ copies wallet_id t les else copies wallet_id t les

unfoldable pub join :
    Uuid → List TransactionRecord → List LedgerEntryRecord → List TransactionRecord
join wallet_id [] les = []
join wallet_id (t ∷ ts) les = copies wallet_id t les ++ join wallet_id ts les

-- `DISTINCT`: `id` is a primary key, so rows with one id are equal.
unfoldable pub distinct : List TransactionRecord → List TransactionRecord
distinct [] = []
distinct (t ∷ ts) = let rest = distinct ts in if has_row (has_id t.id) rest then rest else t ∷ rest

-- SQL leaves open in which order rows with the same `created_at` come, in each run of the query:
-- `scan` is the order in which this run reads the rows that it then sorts.
unfoldable pub list_for_wallet :
    (List TransactionRecord → List TransactionRecord)
    → Uuid
    → ℕ
    → ℕ
    → Action (List TransactionRecord)
list_for_wallet scan wallet_id limit offset = gets (λ db. take limit (
    drop offset (
      order_by_desc (λ t. t.created_at)
        (scan (distinct (join wallet_id db.transactions db.ledger_entries))))))

unfoldable pub count_for_wallet : Uuid → Action ℕ
count_for_wallet wallet_id =
    gets (λ db. length (distinct (join wallet_id db.transactions db.ledger_entries)))
