-- ===== src/Fiat/Totals.antt =====
-- The money in all wallets together, and in the whole ledger.
use super_wallet.Base.{
  inr, ==_iff, inl, Bool-cases, ◌≡◌, refl, sym, ◌∙◌, ap, subst, ◌==◌, true, false, some, List, [],
  ◌∷◌, arith, All,
}
use super_wallet.Base.Int.{pos_part, neg_part, ℤ, pos, ◌+ℤ◌, int_laws}
use super_wallet.Base.Table.{find_row, has_row, update_rows}
use super_wallet.Db.{Db, Uuid, Timestamp, WalletRecord, TransactionRecord, LedgerEntryRecord}
use super_wallet.Fiat.WalletRepository
use super_wallet.Fiat.WalletRepository.{with_balance}
use super_wallet.Fiat.WalletRepository.Locked.{UniqueIds}
use super_wallet.Fiat.LedgerEntryRepository.{sum_entries}
use super_wallet.Fiat.Invariant.Steps.{Reach, Reach-IsConsistent}
use super_wallet.Fiat.Invariant.Writes.{IsConsistent, IsReconciled, IsReferenced}

abbrev pub total_balance : List WalletRecord → ℤ
total_balance [] = pos 0
total_balance (w ∷ ws) = w.balance_minor +ℤ total_balance ws

abbrev pub total_entries : List LedgerEntryRecord → ℤ
total_entries [] = pos 0
total_entries (e ∷ es) = e.amount_minor +ℤ total_entries es

update_rows_absent :
    (now : Timestamp) (b : ℤ) (id : Uuid) (ws : List WalletRecord)
    → has_row (WalletRepository.has_id id) ws ≡ false
    → update_rows (WalletRepository.has_id id) (with_balance now b) ws ≡ ws
update_rows_absent now b id [] h = refl
update_rows_absent now b id (w ∷ ws) h = ground (arith, update_rows_absent now b id ws)

-- Setting the balance of one wallet changes the total by the difference.
pub total_balance-update_rows :
    (now : Timestamp) (b : ℤ) (id : Uuid) (ws : List WalletRecord) (w : WalletRecord)
    → UniqueIds ws
    → find_row (WalletRepository.has_id id) ws ≡ some w
    → total_balance (update_rows (WalletRepository.has_id id) (with_balance now b) ws)
        +ℤ w.balance_minor
      ≡ total_balance ws +ℤ b
total_balance-update_rows now b id [] w u h = cc
total_balance-update_rows now b id (x ∷ ws) w u h = elim (Bool-cases (x.id == id)) [
  | inl hit ↦
      let same : x ≡ w = ground arith in
      let absent : has_row (WalletRepository.has_id id) ws ≡ false =
        subst (λ k. has_row (WalletRepository.has_id k) ws ≡ false) ((==_iff x.id id).0 hit) u.0 in
      rw (hit, update_rows_absent now b id ws absent, ← same) (omega int_laws)
  | inr miss ↦
      let ih = total_balance-update_rows now b id ws w u.1 (rw (miss) at h) in
      rw miss (omega (int_laws, ap pos_part ih, ap neg_part ih))
]

-- What the wallets of a list have in the ledger.
abbrev sums : List WalletRecord → List LedgerEntryRecord → ℤ
sums [] es = pos 0
sums (w ∷ ws) es = sum_entries w.id es +ℤ sums ws es

sums_absent :
    (ws : List WalletRecord) (e : LedgerEntryRecord) (es : List LedgerEntryRecord)
    → has_row (WalletRepository.has_id e.wallet_id) ws ≡ false
    → sums ws (e ∷ es) ≡ sums ws es
sums_absent [] e es h = refl
sums_absent (w ∷ ws) e es h = ground (arith, sums_absent ws e es)

-- An entry counts in exactly one wallet.
sums_present :
    (ws : List WalletRecord) (e : LedgerEntryRecord) (es : List LedgerEntryRecord)
    → UniqueIds ws
    → has_row (WalletRepository.has_id e.wallet_id) ws ≡ true
    → sums ws (e ∷ es) ≡ e.amount_minor +ℤ sums ws es
sums_present [] e es u h = cc
sums_present (w ∷ ws) e es u h = elim (Bool-cases (e.wallet_id == w.id)) [
  | inl hit ↦
      let absent : has_row (WalletRepository.has_id e.wallet_id) ws ≡ false =
        subst (λ k. has_row (WalletRepository.has_id k) ws ≡ false)
          (sym ((==_iff e.wallet_id w.id).0 hit)) u.0 in
      rw (hit, sums_absent ws e es absent) (omega int_laws)
  | inr miss ↦ let ih = sums_present ws e es u.1 (ground arith) in rw (miss, ih) (omega int_laws)
]

sums-nil : (ws : List WalletRecord) → sums ws [] ≡ pos 0
sums-nil [] = refl
sums-nil (w ∷ ws) = rw (sums-nil ws) (omega int_laws)

sums-eq-total_entries :
    (ws : List WalletRecord) (ts : List TransactionRecord) (es : List LedgerEntryRecord)
    → UniqueIds ws
    → All (IsReferenced ws ts) es
    → sums ws es ≡ total_entries es
sums-eq-total_entries ws ts [] u h = sums-nil ws
sums-eq-total_entries ws ts (e ∷ es) u h =
    sums_present ws e es u h.0.wallet
    ∙ ap (λ x. e.amount_minor +ℤ x) (sums-eq-total_entries ws ts es u h.1)

total_balance-eq-sums :
    (ws : List WalletRecord) (es : List LedgerEntryRecord)
    → All (IsReconciled es) ws
    → total_balance ws ≡ sums ws es
total_balance-eq-sums [] es h = refl
total_balance-eq-sums (w ∷ ws) es h = rw (h.0.balance, total_balance-eq-sums ws es h.1)

-- In consistent tables the balances of all wallets add up to the amounts of all ledger entries.
pub total_balance-eq-total_entries :
    (db : Db) → IsConsistent db → total_balance db.wallets ≡ total_entries db.ledger_entries
total_balance-eq-total_entries db c =
    total_balance-eq-sums db.wallets db.ledger_entries c.reconciled
    ∙ sums-eq-total_entries db.wallets db.transactions db.ledger_entries c.unique_ids c.referenced

-- Whatever transactions of the four services commit, in whatever order, from consistent tables on:
-- the balances of all wallets add up to the amounts of all ledger entries.
pub Reach-total_balance :
    {start db : Db}
    → Reach start db
    → IsConsistent start
    → total_balance db.wallets ≡ total_entries db.ledger_entries
Reach-total_balance {start} {db} r c = total_balance-eq-total_entries db (Reach-IsConsistent r c)
