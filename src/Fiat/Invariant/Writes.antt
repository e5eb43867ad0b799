-- ===== src/Fiat/Invariant/Writes.antt =====
-- The invariant of the tables, and that each write keeps it.
use super_wallet.Base.{
  some, Bool, ==_iff, subst, ap, ◌∙◌, All-map, All-append, ◌≡◌, refl, ◌==◌, true, false, List, [],
  ◌∷◌, ◌++◌, arith, All, if◌then◌else◌, eq_iff,
}
use super_wallet.Base.Int.{ltb_ℤ, ℤ, pos, ◌+ℤ◌, ◌≤ℤ◌, int_laws}
use super_wallet.Base.Table.{
  find_row, has_row-append, has_row-update_rows, find_row-holds, All-find_row, has_row-append_old,
  has_row, update_rows,
}
use super_wallet.Audit.{add_audit}
use super_wallet.Fiat.Posting.{Inserted, EntryPosted, add_transaction, post_entry}
use super_wallet.Db.{
  AuditLog, Db, Uuid, Timestamp, WalletRecord, TransactionRecord, LedgerEntryRecord,
}
use super_wallet.Fiat.WalletRepository
use super_wallet.Fiat.WalletRepository.{with_balance}
use super_wallet.Fiat.WalletRepository.Locked.{UniqueIds}
use super_wallet.Fiat.TransactionRepository
use super_wallet.Fiat.LedgerEntryRepository.{sum_entries}

-- The cached balance is what the ledger says, and is not negative.
pub record IsReconciled (es : List LedgerEntryRecord) (w : WalletRecord) : Type 0 where
  pub balance : w.balance_minor ≡ sum_entries w.id es
  pub nonneg : pos 0 ≤ℤ w.balance_minor

-- No idempotency key names two transactions.
abbrev pub UniqueKeys : List TransactionRecord → Type 0
UniqueKeys [] = Unit
UniqueKeys (t ∷ ts) =
    (has_row (TransactionRepository.has_key t.idempotency_key) ts ≡ false) × UniqueKeys ts

-- An entry belongs to a wallet and to a transaction.
pub record IsReferenced (ws : List WalletRecord) (ts : List TransactionRecord)
    (e : LedgerEntryRecord) : Type 0 where
  pub wallet : has_row (WalletRepository.has_id e.wallet_id) ws ≡ true
  pub transaction : has_row (TransactionRepository.has_id e.transaction_id) ts ≡ true

pub record IsConsistent (db : Db) : Type 0 where
  pub unique_ids : UniqueIds db.wallets
  pub reconciled : All (IsReconciled db.ledger_entries) db.wallets
  pub unique_keys : UniqueKeys db.transactions
  pub referenced : All (IsReferenced db.wallets db.transactions) db.ledger_entries

pub sum_entries-append :
    (k : Uuid) (es : List LedgerEntryRecord) (e : LedgerEntryRecord)
    → sum_entries k (es ++ e ∷ [])
      ≡ (if e.wallet_id == k then sum_entries k es +ℤ e.amount_minor else sum_entries k es)
sum_entries-append k [] e = grind int_laws
sum_entries-append k (x ∷ es) e = grind (int_laws, sum_entries-append k es e)

UniqueKeys-append :
    (ts : List TransactionRecord) (t : TransactionRecord)
    → UniqueKeys ts
    → has_row (TransactionRepository.has_key t.idempotency_key) ts ≡ false
    → UniqueKeys (ts ++ t ∷ [])
UniqueKeys-append [] t u new = (refl, tt)
UniqueKeys-append (x ∷ ts) t u new = ground (
  arith,
  has_row-append (TransactionRepository.has_key x.idempotency_key) ts t,
  eq_iff x.idempotency_key t.idempotency_key,
  eq_iff t.idempotency_key x.idempotency_key,
  UniqueKeys-append ts t u.1,
)

-- One wallet's balance is set to the sum that its entries now have.
IsReconciled-after :
    (now : Timestamp) (b : ℤ) (es : List LedgerEntryRecord) (e : LedgerEntryRecord)
    (ws : List WalletRecord)
    → b ≡ sum_entries e.wallet_id es +ℤ e.amount_minor
    → pos 0 ≤ℤ b
    → All (IsReconciled es) ws
    → All
        (IsReconciled (es ++ e ∷ []))
        (update_rows (WalletRepository.has_id e.wallet_id) (with_balance now b) ws)
IsReconciled-after now b es e [] sum nonneg h = tt
IsReconciled-after now b es e (w ∷ ws) sum nonneg h =
    ground (arith, sum_entries-append w.id es e, IsReconciled-after now b es e ws sum nonneg h.1)

pub update_rows-UniqueIds :
    (now : Timestamp) (b : ℤ) (p : WalletRecord → Bool) (ws : List WalletRecord)
    → UniqueIds ws
    → UniqueIds (update_rows p (with_balance now b) ws)
update_rows-UniqueIds now b p [] u = tt
update_rows-UniqueIds now b p (w ∷ ws) u = ground (
  arith,
  has_row-update_rows (WalletRepository.has_id w.id) p (with_balance now b) ws (λ x. refl),
  update_rows-UniqueIds now b p ws u.1,
)

pub nonneg_of_covered : (b : ℤ) → ltb_ℤ b (pos 0) ≡ false → pos 0 ≤ℤ b
nonneg_of_covered b h = ground arith

-- The balance of a wallet that is read from consistent tables is the sum of its entries.
pub balance-sum_entries :
    (db : Db) (id : Uuid) (w : WalletRecord)
    → IsConsistent db
    → find_row (WalletRepository.has_id id) db.wallets ≡ some w
    → w.balance_minor ≡ sum_entries id db.ledger_entries
balance-sum_entries db id w c found =
    let same : w.id ≡ id =
      (==_iff w.id id).0 (find_row-holds (WalletRepository.has_id id) db.wallets w found) in
    subst (λ k. w.balance_minor ≡ sum_entries k db.ledger_entries) same
      (All-find_row (IsReconciled db.ledger_entries) (WalletRepository.has_id id) db.wallets w
        c.reconciled found).balance

pub add_transaction-IsConsistent :
    (t : TransactionRecord) (db : Db)
    → IsConsistent db
    → Inserted t db
    → IsConsistent (add_transaction t db)
add_transaction-IsConsistent t db c i = record {
  unique_ids = c.unique_ids;
  reconciled = c.reconciled;
  unique_keys = UniqueKeys-append db.transactions t c.unique_keys i.new_key;
  referenced =
      All-map (IsReferenced db.wallets db.transactions)
        (IsReferenced db.wallets (db.transactions ++ t ∷ [])) db.ledger_entries
        (λ e r. record {
          wallet = r.wallet;
          transaction =
              has_row-append_old (TransactionRepository.has_id e.transaction_id) db.transactions t
                r.transaction;
        })
        c.referenced;
}

-- An entry for `b - balance` and the balance `b` are posted together.
pub post_entry-IsConsistent :
    (now : Timestamp) (b : ℤ) (e : LedgerEntryRecord) (w : WalletRecord) (db : Db)
    → IsConsistent db
    → find_row (WalletRepository.has_id e.wallet_id) db.wallets ≡ some w
    → b ≡ w.balance_minor +ℤ e.amount_minor
    → EntryPosted b e db
    → IsConsistent (post_entry now b e db)
post_entry-IsConsistent now b e w db c found sum p = record {
  unique_ids =
      update_rows-UniqueIds now b (WalletRepository.has_id e.wallet_id) db.wallets c.unique_ids;
  reconciled =
      IsReconciled-after now b db.ledger_entries e db.wallets
        (sum ∙ ap (λ x. x +ℤ e.amount_minor) (balance-sum_entries db e.wallet_id w c found))
        (nonneg_of_covered b p.covered) c.reconciled;
  unique_keys = c.unique_keys;
  referenced =
      All-append (IsReferenced (post_entry now b e db).wallets db.transactions) db.ledger_entries
        (e ∷ [])
        (All-map (IsReferenced db.wallets db.transactions)
          (IsReferenced (post_entry now b e db).wallets db.transactions) db.ledger_entries
          (λ x r. record { wallet = keeps x.wallet_id ∙ r.wallet; transaction = r.transaction })
          c.referenced)
        (record { wallet = keeps e.wallet_id ∙ p.there; transaction = p.of_transaction }, tt);
}
  where
    keeps :
        (k : Uuid)
        → has_row (WalletRepository.has_id k) (post_entry now b e db).wallets
          ≡ has_row (WalletRepository.has_id k) db.wallets
    keeps k =
        has_row-update_rows (WalletRepository.has_id k) (WalletRepository.has_id e.wallet_id)
          (with_balance now b) db.wallets (λ x. refl)

pub add_audit-IsConsistent :
    (a : AuditLog) (db : Db) → IsConsistent db → IsConsistent (add_audit a db)
add_audit-IsConsistent a db c = record {
  unique_ids = c.unique_ids;
  reconciled = c.reconciled;
  unique_keys = c.unique_keys;
  referenced = c.referenced;
}
