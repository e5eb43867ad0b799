-- ===== src/Fiat/Requests/Idempotency.antt =====
-- A key names one transaction for ever: who retries a call with it gets that transaction, and
-- nothing moves again.
use mathlib.Core.Bool.{false≢true}
use super_wallet.Base.{
  Option-cases, Bool-cases, ==_iff, if◌then◌else◌, ◌≡◌, ◌≢◌, sym, ◌∙◌, ap, subst, String, Option,
  none, some, [], ◌∷◌, ◌++◌, eq_refl, inl, inr, ◌==◌, arith,
}
use super_wallet.Base.Table.{
  find_row_of_has, find_row, find_row-append, find_row-append_old, find_row-none_of_has,
}
use super_wallet.Db.{Db, Server, Uuid, ok, TransactionRecord}
use super_wallet.Db.Post.{Post-result, Post-weaken, transaction_keeps}
use super_wallet.Fiat.TransactionRepository
use super_wallet.Fiat.TransactionRepository.{has_key}
use super_wallet.Fiat.Posting.{Inserted, add_transaction}
use super_wallet.Fiat.Outcome.{Replayed}
use super_wallet.Fiat.WalletService.{create_body}
use super_wallet.Fiat.WalletService.Outcome.{WalletCreated, create_body-outcome}
use super_wallet.Fiat.DepositService.{deposit, deposit_body}
use super_wallet.Fiat.DepositService.Outcome.{Deposited, deposit_body-outcome, deposit-outcome}
use super_wallet.Fiat.WithdrawalService.{withdraw, withdraw_body}
use super_wallet.Fiat.WithdrawalService.Outcome.{Withdrawn, withdraw_body-outcome, withdraw-outcome}
use super_wallet.Fiat.TransferService.{transfer, transfer_body}
use super_wallet.Fiat.TransferService.Outcome.{
  TransferredApart, Transferred, transfer_body-outcome, transfer-outcome,
}
use super_wallet.Fiat.Invariant.Writes.{IsConsistent}
use super_wallet.Fiat.Invariant.Steps.{here, next, Step, Reach, Reach-IsConsistent}
use super_wallet.Fiat.Requests.{Movement, deposits, withdraws, transfers, perform}

-- The transaction that a key names.
abbrev pub Names : String → TransactionRecord → Db → Type 0
Names key t db = find_row (has_key key) db.transactions ≡ some t

-- What a call that returns has left: its key names its result.
abbrev Named : String → Option TransactionRecord → Db → Type 0
Named key r db = (t : TransactionRecord) × (r ≡ some t) × Names key t db

Replayed-Named :
    {key : String} {r : Option TransactionRecord} {db db' : Db}
    → Replayed key r db db'
    → Named key r db'
Replayed-Named {key} {r} {db} {db'} p =
    let (t, found) = find_row_of_has (has_key key) db.transactions p.known in
    (t, p.result ∙ found, ap (λ (d : Db). find_row (has_key key) d.transactions) p.after ∙ found)

Inserted-Names :
    (t : TransactionRecord) (db : Db)
    → Inserted t db
    → Names t.idempotency_key t (add_transaction t db)
Inserted-Names t db i =
    find_row-append (has_key t.idempotency_key) db.transactions t
      (find_row-none_of_has _ db.transactions i.new_key)
    ∙ ap (λ b. if b then some t else none) (eq_refl t.idempotency_key)

module _ (server : Server) (user_id : Uuid) (key : String) where
  -- A movement that returns, returns a transaction, and its key names it from then on.
  pub perform-Names :
      (m : Movement) (r : Option TransactionRecord) (db db' : Db)
      → IsConsistent db
      → perform server user_id key m db ≡ (ok r, db')
      → Named key r db'
  unfolding perform
  perform-Names (deposits wallet_id amount) r db db' c h =
      elim (Post-result (Deposited server wallet_id user_id amount key db) _ h
        (deposit-outcome server wallet_id user_id amount key db)) [
          | inl replay ↦ Replayed-Named replay
          | inr (w, mine, p) ↦ (
            _,
            p.result,
            ap (λ (d : Db). find_row (has_key key) d.transactions) p.after
                ∙ Inserted-Names _ db p.inserted,
          )
        ]
  perform-Names (withdraws wallet_id amount) r db db' c h =
      elim (Post-result (Withdrawn server wallet_id user_id amount key db) _ h
        (withdraw-outcome server wallet_id user_id amount key db)) [
          | inl replay ↦ Replayed-Named replay
          | inr (w, mine, enough, p) ↦ (
            _,
            p.result,
            ap (λ (d : Db). find_row (has_key key) d.transactions) p.after
                ∙ Inserted-Names _ db p.inserted,
          )
        ]
  perform-Names (transfers from to amount) r db db' c h =
      let (apart, o) =
        Post-result (TransferredApart server from to user_id amount key db) _ h
          (transfer-outcome server from to user_id amount key db c.unique_ids) in
      elim o [
        | inl replay ↦ Replayed-Named replay
        | inr (s, t, p) ↦ (
          _,
          p.result,
          ap (λ (d : Db). find_row (has_key key) d.transactions) p.after
              ∙ Inserted-Names _ db p.inserted,
        )
      ]

-- `transfer` refuses one wallet for both ends before it looks at the key.
abbrev pub IsApart : Movement → Type 0
IsApart (transfers from to _) = from ≢ to
IsApart _ = Unit

-- A movement under a key that names a transaction returns that and changes nothing.
perform_known :
    (server : Server) (user_id : Uuid) (key : String) (m : Movement) (t : TransactionRecord)
    (db : Db)
    → IsApart m
    → Names key t db
    → perform server user_id key m db ≡ (ok (some t), db)
unfolding perform deposit withdraw transfer TransactionRepository.get_by_idempotency_key
perform_known server user_id key (deposits wallet_id amount) t db apart named = rw named
perform_known server user_id key (withdraws wallet_id amount) t db apart named = rw named
perform_known server user_id key (transfers from to amount) t db apart named =
    elim (Bool-cases (from == to)) [
      | inl same ↦ absurd (apart (ground arith))
      | inr other ↦ rw (other, named)
    ]

-- A step keeps what a key names.
keeps_append :
    (key : String) (t : TransactionRecord) (tx : TransactionRecord) (db db' : Db)
    → db'.transactions ≡ db.transactions ++ tx ∷ []
    → Names key t db
    → Names key t db'
keeps_append key t tx db db' e named =
    ap (find_row (has_key key)) e ∙ find_row-append_old (has_key key) db.transactions tx t named

keeps_same :
    (key : String) (t : TransactionRecord) {db db' : Db}
    → db' ≡ db
    → Names key t db
    → Names key t db'
keeps_same key t e named = subst (Names key t) (sym e) named

Step-Names :
    (key : String) (t : TransactionRecord) {db db' : Db}
    → Step db db'
    → IsConsistent db
    → Names key t db
    → Names key t db'
Step-Names key t (Step.creates_wallet server user_id currency db) c named =
    transaction_keeps (Names key t) (create_body server user_id currency) db named (
      Post-weaken (WalletCreated server user_id currency db) (λ _. Names key t) _
        (create_body-outcome server user_id currency db)
        λ r db' p. subst (Names key t) (sym p.after) named)
Step-Names key t (Step.deposits server wallet_id user_id amount k db) c named =
    transaction_keeps (Names key t) (deposit_body server wallet_id user_id amount k) db named (
      Post-weaken (Deposited server wallet_id user_id amount k db) (λ _. Names key t) _
        (deposit_body-outcome server wallet_id user_id amount k db)
        λ r db' o. elim o [
          | inl p ↦ keeps_same key t p.after named
          | inr (w, mine, p) ↦
              keeps_append key t _ db db' (ap (λ (d : Db). d.transactions) p.after) named
        ])
Step-Names key t (Step.withdraws server wallet_id user_id amount k db) c named =
    transaction_keeps (Names key t) (withdraw_body server wallet_id user_id amount k) db named (
      Post-weaken (Withdrawn server wallet_id user_id amount k db) (λ _. Names key t) _
        (withdraw_body-outcome server wallet_id user_id amount k db)
        λ r db' o. elim o [
          | inl p ↦ keeps_same key t p.after named
          | inr (w, mine, enough, p) ↦
              keeps_append key t _ db db' (ap (λ (d : Db). d.transactions) p.after) named
        ])
Step-Names key t (Step.transfers server from to user_id amount k db apart) c named =
    transaction_keeps (Names key t) (transfer_body server from to user_id amount k) db named (
      Post-weaken (Transferred server from to user_id amount k db) (λ _. Names key t) _
        (transfer_body-outcome server from to user_id amount k db c.unique_ids)
        λ r db' o. elim o [
          | inl p ↦ keeps_same key t p.after named
          | inr (s, u, p) ↦
              keeps_append key t _ db db' (ap (λ (d : Db). d.transactions) p.after) named
        ])

Reach-Names :
    (key : String) (t : TransactionRecord) {db db' : Db}
    → Reach db db'
    → IsConsistent db
    → Names key t db
    → Names key t db'
Reach-Names key t here c named = named
Reach-Names key t (next r s) c named =
    Step-Names key t s (Reach-IsConsistent r c) (Reach-Names key t r c named)

-- A call of a service is at most one commit.
pub perform-Reach :
    (server : Server) (user_id : Uuid) (key : String) (m : Movement) (db : Db)
    → Reach db (perform server user_id key m db).1
unfolding perform deposit withdraw transfer TransactionRepository.get_by_idempotency_key
perform-Reach server user_id key (deposits wallet_id amount) db =
    elim (Option-cases (find_row (has_key key) db.transactions)) [
      | inl missing ↦ rw missing (next here (Step.deposits server wallet_id user_id amount key db))
      | inr (t, found) ↦ rw found here
    ]
perform-Reach server user_id key (withdraws wallet_id amount) db =
    elim (Option-cases (find_row (has_key key) db.transactions)) [
      | inl missing ↦ rw missing (next here (Step.withdraws server wallet_id user_id amount key db))
      | inr (t, found) ↦ rw found here
    ]
perform-Reach server user_id key (transfers from to amount) db = elim (Bool-cases (from == to)) [
  | inl same ↦ rw same here
  | inr other ↦ elim (Option-cases (find_row (has_key key) db.transactions)) [
    | inl missing ↦
        rw (other, missing)
          (next here (
            Step.transfers server from to user_id amount key db
              (λ e. false≢true (sym other ∙ (==_iff from to).1 e))))
    | inr (t, found) ↦ rw (other, found) here
  ]
]

-- From consistent tables: once a movement has returned under a key, every later call with that key
-- (a retry, or any other movement, by any user, after whatever other fiat transactions have
-- committed) returns the same transaction and changes no table. The one exception is a transfer
-- from a wallet to itself, which is refused first.
pub perform_idempotent :
    (server later : Server) (user_id other : Uuid) (key : String) (m retried : Movement)
    (r : Option TransactionRecord) (db db' db'' : Db)
    → IsConsistent db
    → perform server user_id key m db ≡ (ok r, db')
    → Reach db' db''
    → IsApart retried
    → perform later other key retried db'' ≡ (ok r, db'')
perform_idempotent server later user_id other key m retried r db db' db'' c h reach apart =
    let (t, result, named) = perform-Names server user_id key m r db db' c h in
    let c' =
      subst (λ p. IsConsistent p.1) h
        (Reach-IsConsistent (perform-Reach server user_id key m db) c) in
    perform_known later other key retried t db'' apart (Reach-Names key t reach c' named)
    ∙ ap (λ x. (ok x, db'')) (sym result)
