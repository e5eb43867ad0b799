-- ===== src/Fiat/Ledger/Refinement.antt =====
-- The transactions of the fiat services as movements of accounts.
use mathlib.Core.Path.{fun_ext}
use super_wallet.Base.{
  Bool-cases, Bool, ◌≡◌, ◌≢◌, refl, sym, subst, ap, ◌∙◌, inl, inr, String, Option, some, List, [],
  ◌∷◌, ◌++◌, ◌==◌, true, false, if◌then◌else◌, arith,
}
use super_wallet.Base.Int.{ℤ, pos, ◌+ℤ◌, ◌-ℤ◌, ◌≤ℤ◌}
use super_wallet.Base.Table.{find_row-none_of_has, find_row, has_row}
use super_wallet.Db.{
  Db, Server, Uuid, Timestamp, WalletRecord, TransactionRecord, LedgerEntryRecord,
}
use super_wallet.Db.Post.{transaction_keeps, Post, Post-weaken}
use super_wallet.Fiat.WalletRepository
use super_wallet.Fiat.WalletRepository.{with_balance}
use super_wallet.Fiat.Outcome.{Replayed}
use super_wallet.Fiat.Effect.{Moved, Posted-Moved, wallet_row}
use super_wallet.Fiat.DepositService.{deposit_body}
use super_wallet.Fiat.DepositService.Outcome.{Deposited, deposit_body-outcome}
use super_wallet.Fiat.WithdrawalService.{withdraw_body}
use super_wallet.Fiat.WithdrawalService.Outcome.{Withdrawn, withdraw_body-outcome}
use super_wallet.Fiat.TransferService.{transfer_body}
use super_wallet.Fiat.TransferService.Outcome.{transfer_body-outcome, Transferred}
use super_wallet.Fiat.TransferService.Effect.{Paid, TransferPosted-Paid}
use super_wallet.Fiat.WalletService.{create_body}
use super_wallet.Fiat.WalletService.Outcome.{
  add_wallet, created_wallet, create_body-outcome, WalletCreated,
}
use super_wallet.Fiat.Invariant.Writes.{IsConsistent}
use super_wallet.Fiat.Invariant.Steps.{
  Step, Reach, Reach-IsConsistent, creates_wallet, deposits, withdraws, transfers, here, next,
}
use super_wallet.Fiat.Ledger.{
  Account, Accounts, set_account, Movement, nothing_moves, opens, enters, leaves, pays, Movements,
  no_movement, one_more, account, account_of, accounts_of,
}
use super_wallet.Fiat.WithdrawalService.Effect.{covered_of_test}

-- A step of the tables, as the accounts show it.
abbrev Moves : Uuid → Db → Db → Type 0
Moves user_id db db' = Movement user_id (accounts_of db) (accounts_of db')

wallet_row-add_wallet :
    (k : Uuid) (w : WalletRecord) (ws : List WalletRecord)
    → has_row (WalletRepository.has_id w.id) ws ≡ false
    → find_row (WalletRepository.has_id k) (ws ++ w ∷ [])
      ≡ (if k == w.id then some w else find_row (WalletRepository.has_id k) ws)
wallet_row-add_wallet k w [] new = ground arith
wallet_row-add_wallet k w (x ∷ ws) new = ground (arith, wallet_row-add_wallet k w ws)

account_of-if :
    (b : Bool) (w : WalletRecord) (o : Option WalletRecord)
    → account_of (if b then some w else o) ≡ (if b then some (account w) else account_of o)
account_of-if true w o = refl
account_of-if false w o = refl

accounts_of-add_wallet :
    (w : WalletRecord) (db : Db)
    → has_row (WalletRepository.has_id w.id) db.wallets ≡ false
    → accounts_of (add_wallet w db) ≡ set_account w.id (account w) (accounts_of db)
accounts_of-add_wallet w db new = fun_ext (λ k.
    ap account_of (wallet_row-add_wallet k w db.wallets new)
    ∙ account_of-if (k == w.id) w (wallet_row k db))

-- The value of an account that was set, at any id.
at_account :
    (k id : Uuid) (a : Account) (accounts : Accounts) (o : Option Account)
    → (k ≡ id → o ≡ some a)
    → (k ≢ id → o ≡ accounts k)
    → o ≡ set_account id a accounts k
at_account k id a accounts o at others = elim (Bool-cases (k == id)) [
  | inl e ↦ rw (e) (at (ground arith))
  | inr e ↦ rw (e) (others (ground arith))
]

-- The account of a row that was found.
account_at :
    (k id : Uuid) (w : WalletRecord) (db : Db)
    → wallet_row id db ≡ some w
    → k ≡ id
    → accounts_of db k ≡ some (account w)
account_at k id w db found same =
    ap account_of (subst (λ j. wallet_row j db ≡ some w) (sym same) found)

Moved-accounts :
    {now : Timestamp} {tx : TransactionRecord} {w : WalletRecord} {e : LedgerEntryRecord}
    {db db' : Db}
    → Moved now tx w e db db'
    → accounts_of db'
      ≡ set_account e.wallet_id (account (with_balance now e.balance_after w)) (accounts_of db)
Moved-accounts {now} {tx} {w} {e} {db} {db'} m = fun_ext (λ k.
    at_account k e.wallet_id _ (accounts_of db) (accounts_of db' k)
      (account_at k e.wallet_id (with_balance now e.balance_after w) db' m.balance)
      (λ apart. ap account_of (m.others k apart)))

Replayed-Moves :
    {user_id : Uuid} {key : String} {r : Option TransactionRecord} {db db' : Db}
    → Replayed key r db db'
    → Moves user_id db db'
Replayed-Moves {user_id} {key} {r} {db} p = subst (Moves user_id db) (sym p.after) nothing_moves

-- The request models let only positive amounts through.
abbrev IsAccepted : {db db' : Db} → Step db db' → Type 0
IsAccepted (creates_wallet server user_id currency db) = Unit
IsAccepted (deposits server wallet_id user_id amount_minor key db) = pos 1 ≤ℤ amount_minor
IsAccepted (withdraws server wallet_id user_id amount_minor key db) = pos 1 ≤ℤ amount_minor
IsAccepted (transfers server a b user_id amount_minor key db apart) = pos 1 ≤ℤ amount_minor

-- Who caused a step.
abbrev actor : {db db' : Db} → Step db db' → Uuid
actor (creates_wallet server user_id currency db) = user_id
actor (deposits server wallet_id user_id amount_minor key db) = user_id
actor (withdraws server wallet_id user_id amount_minor key db) = user_id
actor (transfers server a b user_id amount_minor key db apart) = user_id

abbrev pub actors : {start db : Db} → Reach start db → List Uuid
actors here = []
actors (next r s) = actor s ∷ actors r

abbrev pub AllAccepted : {start db : Db} → Reach start db → Type 0
AllAccepted here = Unit
AllAccepted (next r s) = AllAccepted r × IsAccepted s

module _ (server : Server) (wallet_id user_id : Uuid) (amount_minor : ℤ) (key : String) (db : Db)
    (positive : pos 1 ≤ℤ amount_minor) where
  deposit_body-Moves :
      Post (λ _. Moves user_id db) (deposit_body server wallet_id user_id amount_minor key db)
  deposit_body-Moves =
      Post-weaken (Deposited server wallet_id user_id amount_minor key db) (λ _. Moves user_id db) _
        (deposit_body-outcome server wallet_id user_id amount_minor key db)
        λ r db' o. elim o [
          | inl replay ↦ Replayed-Moves replay
          | inr (w, mine, p) ↦
              subst (Movement user_id (accounts_of db)) (sym (Moved-accounts (Posted-Moved p)))
                (enters wallet_id amount_minor (account w) (ap account_of p.found) mine positive)
        ]

  withdraw_body-Moves :
      Post (λ _. Moves user_id db) (withdraw_body server wallet_id user_id amount_minor key db)
  withdraw_body-Moves =
      Post-weaken (Withdrawn server wallet_id user_id amount_minor key db) (λ _. Moves user_id db) _
        (withdraw_body-outcome server wallet_id user_id amount_minor key db)
        λ r db' o. elim o [
          | inl replay ↦ Replayed-Moves replay
          | inr (w, mine, enough, p) ↦
              subst (Movement user_id (accounts_of db)) (sym (Moved-accounts (Posted-Moved p))) (
                leaves wallet_id amount_minor (account w) (ap account_of p.found) mine positive
                  (covered_of_test w.balance_minor amount_minor enough))
        ]

-- The rows of both wallets are replaced, the payer's first.
Paid-accounts :
    (server : Server) (a b user_id : Uuid) (amount_minor : ℤ) (key : String) {s t : WalletRecord}
    {db db' : Db}
    → Paid server a b user_id amount_minor key s t db db'
    → accounts_of db'
      ≡ set_account b (account (with_balance server.now (t.balance_minor +ℤ amount_minor) t)) (
          set_account a
            (account (with_balance server.now (s.balance_minor -ℤ amount_minor) s))
            (accounts_of db))
Paid-accounts server a b user_id amount_minor key {s} {t} {db} {db'} p =
    let debited : Accounts =
      set_account a (account (with_balance server.now (s.balance_minor -ℤ amount_minor) s))
        (accounts_of db) in
    fun_ext (λ k.
      at_account k b _ debited (accounts_of db' k) (account_at k b _ db' p.receiver_after) (λ not_b.
        at_account k a _ (accounts_of db) (accounts_of db' k) (account_at k a _ db' p.sender_after)
          (λ not_a. ap account_of (p.others k not_a not_b))))

module _ (server : Server) (a b user_id : Uuid) (amount_minor : ℤ) (key : String) (db : Db)
    (positive : pos 1 ≤ℤ amount_minor) where
  transfer_body-Moves :
      a ≢ b
      → IsConsistent db
      → Post (λ _. Moves user_id db) (transfer_body server a b user_id amount_minor key db)
  transfer_body-Moves apart c =
      Post-weaken (Transferred server a b user_id amount_minor key db) (λ _. Moves user_id db) _
        (transfer_body-outcome server a b user_id amount_minor key db c.unique_ids)
        λ r db' o. elim o [
          | inl replay ↦ Replayed-Moves replay
          | inr (s, t, p) ↦
              let paid = TransferPosted-Paid server a b user_id amount_minor key c apart p in
              subst (Movement user_id (accounts_of db))
                (sym (Paid-accounts server a b user_id amount_minor key paid))
                (pays a b amount_minor (account s) (account t) (ap account_of paid.sender_before)
                  (ap account_of paid.receiver_before) apart paid.mine paid.same_currency positive
                  paid.enough)
        ]

create_body-Moves :
    (server : Server) (user_id : Uuid) (currency : String) (db : Db)
    → Post (λ _. Moves user_id db) (create_body server user_id currency db)
create_body-Moves server user_id currency db =
    Post-weaken (WalletCreated server user_id currency db) (λ _. Moves user_id db) _
      (create_body-outcome server user_id currency db)
      λ r db' p. subst (Moves user_id db) (sym p.after) (
        subst (Movement user_id (accounts_of db))
          (sym (accounts_of-add_wallet (created_wallet server user_id currency) db p.new_id))
          (opens (server.gen_random_uuid 0) currency
            (ap account_of (find_row-none_of_has _ db.wallets p.new_id))))

Step-Moves :
    {db db' : Db} (s : Step db db') → IsAccepted s → IsConsistent db → Moves (actor s) db db'
Step-Moves (creates_wallet server user_id currency db) positive c =
    transaction_keeps (Moves user_id db) (create_body server user_id currency) db nothing_moves
      (create_body-Moves server user_id currency db)
Step-Moves (deposits server wallet_id user_id amount_minor key db) positive c =
    transaction_keeps (Moves user_id db) (deposit_body server wallet_id user_id amount_minor key) db
      nothing_moves (deposit_body-Moves server wallet_id user_id amount_minor key db positive)
Step-Moves (withdraws server wallet_id user_id amount_minor key db) positive c =
    transaction_keeps (Moves user_id db) (withdraw_body server wallet_id user_id amount_minor key)
      db nothing_moves (withdraw_body-Moves server wallet_id user_id amount_minor key db positive)
Step-Moves (transfers server a b user_id amount_minor key db apart) positive c =
    transaction_keeps (Moves user_id db) (transfer_body server a b user_id amount_minor key) db
      nothing_moves (transfer_body-Moves server a b user_id amount_minor key db positive apart c)

-- The fiat services implement the abstract ledger: whatever transactions of positive amounts commit
-- from consistent tables, and in whatever order, the accounts change only by movements that the
-- callers may cause. A wallet opens empty, only its owner's calls take money out and never more than
-- it holds, and a payment gives another wallet of the same currency exactly what it takes.
pub Reach-Movements :
    {start db : Db} (r : Reach start db)
    → AllAccepted r
    → IsConsistent start
    → Movements (accounts_of start) (actors r) (accounts_of db)
Reach-Movements here ok c = no_movement
Reach-Movements (next r s) ok c =
    one_more (Reach-Movements r ok.0 c) (Step-Moves s ok.1 (Reach-IsConsistent r c))
