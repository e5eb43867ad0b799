-- ===== src/Fiat/Invariant/Wallets.antt =====
-- Adding a wallet, and reading one after another's balance was set, in consistent tables.
use super_wallet.Base.{
  ◌≡◌, refl, sym, ◌∙◌, ==_iff, false, some, List, [], ◌∷◌, ◌++◌, arith, All, All-append, All-map,
  ◌≢◌,
}
use super_wallet.Base.Int.{ℤ, pos}
use super_wallet.Base.Table.{
  find_row, has_row, find_row-holds, find_row-update_rows, has_row-append, has_row-append_old,
}
use super_wallet.Db.{Db, Uuid, Timestamp, WalletRecord, TransactionRecord, LedgerEntryRecord}
use super_wallet.Fiat.WalletRepository
use super_wallet.Fiat.WalletRepository.{with_balance}
use super_wallet.Fiat.WalletRepository.Locked.{UniqueIds}
use super_wallet.Fiat.LedgerEntryRepository.{sum_entries}
use super_wallet.Fiat.Posting.{set_balance}
use super_wallet.Fiat.WalletService.Outcome.{add_wallet}
use super_wallet.Fiat.Invariant.Writes.{IsConsistent, IsReconciled, IsReferenced}

-- Setting one wallet's balance leaves the others as they were.
pub find_row-set_balance_ne :
    (now : Timestamp) (a k : Uuid) (b : ℤ) (db : Db) (w : WalletRecord)
    → a ≢ k
    → find_row (WalletRepository.has_id k) db.wallets ≡ some w
    → find_row (WalletRepository.has_id k) (set_balance now a b db).wallets ≡ some w
find_row-set_balance_ne now a k b db w apart found =
    let same = (==_iff w.id k).0 (find_row-holds (WalletRepository.has_id k) db.wallets w found) in
    ground (
      arith,
      same,
      find_row-update_rows (WalletRepository.has_id k) (WalletRepository.has_id a)
          (with_balance now b) db.wallets w (λ x. refl) found,
    )

pub find_row-set_balance_self :
    (now : Timestamp) (a : Uuid) (b : ℤ) (db : Db) (w : WalletRecord)
    → find_row (WalletRepository.has_id a) db.wallets ≡ some w
    → find_row (WalletRepository.has_id a) (set_balance now a b db).wallets
      ≡ some (with_balance now b w)
find_row-set_balance_self now a b db w found = ground (
  arith,
  find_row-holds (WalletRepository.has_id a) db.wallets w found,
  find_row-update_rows (WalletRepository.has_id a) (WalletRepository.has_id a) (with_balance now b)
      db.wallets w (λ x. refl) found,
)

-- A wallet that no entry names has the sum zero.
sum_entries_unreferenced :
    (id : Uuid) (ws : List WalletRecord) (ts : List TransactionRecord) (es : List LedgerEntryRecord)
    → has_row (WalletRepository.has_id id) ws ≡ false
    → All (IsReferenced ws ts) es
    → sum_entries id es ≡ pos 0
sum_entries_unreferenced id ws ts [] new h = refl
sum_entries_unreferenced id ws ts (e ∷ es) new h =
    ground (arith, h.0.wallet, sum_entries_unreferenced id ws ts es new h.1)

UniqueIds-append :
    (ws : List WalletRecord) (w : WalletRecord)
    → UniqueIds ws
    → has_row (WalletRepository.has_id w.id) ws ≡ false
    → UniqueIds (ws ++ w ∷ [])
UniqueIds-append [] w u new = (refl, tt)
UniqueIds-append (x ∷ ws) w u new =
    ground (arith, has_row-append (WalletRepository.has_id x.id) ws w, UniqueIds-append ws w u.1)

-- A new wallet starts at zero.
pub add_wallet-IsConsistent :
    (w : WalletRecord) (db : Db)
    → IsConsistent db
    → has_row (WalletRepository.has_id w.id) db.wallets ≡ false
    → w.balance_minor ≡ pos 0
    → IsConsistent (add_wallet w db)
add_wallet-IsConsistent w db c new zero_balance = record {
  unique_ids = UniqueIds-append db.wallets w c.unique_ids new;
  reconciled = All-append (IsReconciled db.ledger_entries) db.wallets (w ∷ []) c.reconciled (
    record {
      balance =
          zero_balance
          ∙ sym (
              sum_entries_unreferenced w.id db.wallets db.transactions db.ledger_entries new
                c.referenced);
      nonneg = ground arith;
    },
    tt,
  );
  unique_keys = c.unique_keys;
  referenced =
      All-map (IsReferenced db.wallets db.transactions)
        (IsReferenced (db.wallets ++ w ∷ []) db.transactions) db.ledger_entries
        (λ e r. record {
          wallet = has_row-append_old (WalletRepository.has_id e.wallet_id) db.wallets w r.wallet;
          transaction = r.transaction;
        })
        c.referenced;
}
