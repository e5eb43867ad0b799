-- ===== src/Fiat/Router/Requests.antt =====
-- The requests of the four routes that write, with the models that check their bodies.
pub mod Safety
use super_wallet.Base.{
  leb, ◌≡◌, ◌≢◌, refl, sym, subst, ◌∙◌, arith, String, Option, none, some, List, [], ◌∷◌, All, inl,
  inr, Option-cases, Bool-cases, ==_iff, ◌==◌, true,
}
use mathlib.Core.Bool.{false≢true}
use super_wallet.Base.Int.{ℤ, pos, ◌≤ℤ◌, ltb_ℤ}
use super_wallet.Base.Text.{upper}
use super_wallet.Base.Table.{find_row}
use super_wallet.Db.{
  Db, Server, Uuid, WalletRecord, TransactionRecord, Action, Result, ok, err, pure, ◌>>=◌, ◌>>◌,
  continue,
}
use super_wallet.Http.{check, count, bind-eq-some, check-eq-some, some_injective}
use super_wallet.Users.UserRepository.{UserRecord}
use super_wallet.Fiat.WalletRepository
use super_wallet.Fiat.TransactionRepository
use super_wallet.Fiat.WalletService
use super_wallet.Fiat.DepositService
use super_wallet.Fiat.WithdrawalService
use super_wallet.Fiat.TransferService
use super_wallet.Fiat.Schemas.{
  MovementRequest, TransferRequest, movement_request, transfer_request, create_wallet_request,
}
use super_wallet.Fiat.Router
use super_wallet.Fiat.Router.{answered}
use super_wallet.Fiat.Effect.{wallet_row}
use super_wallet.Fiat.Invariant.Writes.{IsConsistent}
use super_wallet.Fiat.Invariant.Steps.{Reach, here, next, Step, Reach-IsConsistent}
use super_wallet.Fiat.Ledger.Refinement.{actors, AllAccepted}
use super_wallet.Fiat.Ledger.Safety.{idle_owner_keeps_money}

-- A request, with its body as it was sent.
pub data Call : Type 0 where
  opens : Option String → Call
  deposits withdraws : Uuid → ℤ → String → Call
  transfers : Uuid → Uuid → ℤ → String → Call

-- A body that its model refuses is answered with 422 before the handler runs.
abbrev pub with_body : {A : Type 0} → Option A → (A → Action Unit) → Action Unit
with_body none handler = pure tt
with_body (some body) handler = handler body

unfoldable pub serve : Server → UserRecord → Call → Action Unit
serve server user (opens currency) =
    with_body (create_wallet_request currency)
      λ body. Router.create_wallet server user body >> pure tt
serve server user (deposits wallet_id amount_minor key) =
    with_body (movement_request amount_minor key)
      λ body. Router.deposit server user wallet_id body >> pure tt
serve server user (withdraws wallet_id amount_minor key) =
    with_body (movement_request amount_minor key)
      λ body. Router.withdraw server user wallet_id body >> pure tt
serve server user (transfers from_wallet_id to_wallet_id amount_minor key) =
    with_body (transfer_request from_wallet_id to_wallet_id amount_minor key)
      λ body. Router.transfer server user body >> pure tt

-- What a commit of one user did: steps of positive amounts, all of that user.
pub record ReachBy (user_id : Uuid) (db db' : Db) : Type 0 where
  pub reach : Reach db db'
  pub accepted : AllAccepted reach
  pub by_user : All (λ u. u ≡ user_id) (actors reach)

stays : (user_id : Uuid) (db : Db) → ReachBy user_id db db
stays user_id db = record { reach = here; accepted = tt; by_user = tt }

-- What follows a service in a handler only reads.
continue_keeps :
    {A B : Type 0} (r : Result A) (k : A → Action B) (db : Db)
    → ((a : A) → (k a db).1 ≡ db)
    → (continue r k db).1 ≡ db
continue_keeps (ok a) k db h = h a
continue_keeps (err e) k db h = refl

ReachBy-then :
    {A B : Type 0} (user_id : Uuid) (m : Action A) (k : A → Action B) (db : Db)
    → ((a : A) (d : Db) → (k a d).1 ≡ d)
    → ReachBy user_id db (m db).1
    → ReachBy user_id db ((m >>= k) db).1
ReachBy-then user_id m k db h r =
    subst (ReachBy user_id db) (sym (continue_keeps (m db).0 k (m db).1 (λ a. h a (m db).1))) r

answered_keeps : (o : Option TransactionRecord) (db : Db) → (answered o db).1 ≡ db
answered_keeps none db = refl
answered_keeps (some t) db = refl

positive_of_test : (a : ℤ) → ltb_ℤ (pos 0) a ≡ true → pos 1 ≤ℤ a
positive_of_test a h = ground arith

module _ (server : Server) (user_id : Uuid) where
  deposit-ReachBy :
      (wallet_id : Uuid) (amount : ℤ) (key : String) (db : Db)
      → pos 1 ≤ℤ amount
      → ReachBy user_id db (DepositService.deposit server wallet_id user_id amount key db).1
  unfolding DepositService.deposit TransactionRepository.get_by_idempotency_key
  deposit-ReachBy wallet_id amount key db positive =
      elim (Option-cases (find_row (TransactionRepository.has_key key) db.transactions)) [
        | inl missing ↦ rw missing (record {
          reach = next here (Step.deposits server wallet_id user_id amount key db);
          accepted = (tt, positive);
          by_user = (refl, tt);
        })
        | inr (t, found) ↦ rw found (stays user_id db)
      ]

  withdraw-ReachBy :
      (wallet_id : Uuid) (amount : ℤ) (key : String) (db : Db)
      → pos 1 ≤ℤ amount
      → ReachBy user_id db (WithdrawalService.withdraw server wallet_id user_id amount key db).1
  unfolding WithdrawalService.withdraw TransactionRepository.get_by_idempotency_key
  withdraw-ReachBy wallet_id amount key db positive =
      elim (Option-cases (find_row (TransactionRepository.has_key key) db.transactions)) [
        | inl missing ↦ rw missing (record {
          reach = next here (Step.withdraws server wallet_id user_id amount key db);
          accepted = (tt, positive);
          by_user = (refl, tt);
        })
        | inr (t, found) ↦ rw found (stays user_id db)
      ]

  transfer-ReachBy :
      (from to : Uuid) (amount : ℤ) (key : String) (db : Db)
      → pos 1 ≤ℤ amount
      → ReachBy user_id db (TransferService.transfer server from to user_id amount key db).1
  unfolding TransferService.transfer TransactionRepository.get_by_idempotency_key
  transfer-ReachBy from to amount key db positive = elim (Bool-cases (from == to)) [
    | inl same ↦ rw same (stays user_id db)
    | inr other ↦
        elim (Option-cases (find_row (TransactionRepository.has_key key) db.transactions)) [
          | inl missing ↦
              let apart : from ≢ to = λ e. false≢true (sym other ∙ (==_iff from to).1 e) in
              rw (other, missing)
                (record {
                  reach = next here (Step.transfers server from to user_id amount key db apart);
                  accepted = (tt, positive);
                  by_user = (refl, tt);
                })
          | inr (t, found) ↦ rw (other, found) (stays user_id db)
        ]
  ]

  create_wallet-ReachBy :
      (currency : String) (db : Db)
      → ReachBy user_id db (WalletService.create_wallet server user_id currency db).1
  unfolding WalletService.create_wallet
  create_wallet-ReachBy currency db =
      elim (Option-cases
        (find_row (WalletRepository.owns_currency user_id (upper currency)) db.wallets)) [
          | inl missing ↦ rw missing (record {
            reach = next here (Step.creates_wallet server user_id (upper currency) db);
            accepted = (tt, tt);
            by_user = (refl, tt);
          })
          | inr (w, found) ↦ rw found (stays user_id db)
        ]

-- A body that is accepted asks for a positive amount.
movement_request-positive :
    (amount : ℤ) (key : String) (body : MovementRequest)
    → movement_request amount key ≡ some body
    → pos 1 ≤ℤ body.amount_minor
unfolding movement_request
movement_request-positive amount key body h =
    let (m, positive, rest) = bind-eq-some (check (ltb_ℤ (pos 0) amount) amount) _ h in
    let (k, _, made) = bind-eq-some (check (leb (count key) 255) key) _ rest in
    let (test, same) = check-eq-some (ltb_ℤ (pos 0) amount) amount m positive in
    subst (λ (b : MovementRequest). pos 1 ≤ℤ b.amount_minor) (some_injective made)
      (subst (λ a. pos 1 ≤ℤ a) same (positive_of_test amount test))

transfer_request-positive :
    (from to : Uuid) (amount : ℤ) (key : String) (body : TransferRequest)
    → transfer_request from to amount key ≡ some body
    → pos 1 ≤ℤ body.amount_minor
unfolding transfer_request
transfer_request-positive from to amount key body h =
    let (m, positive, rest) = bind-eq-some (check (ltb_ℤ (pos 0) amount) amount) _ h in
    let (k, _, made) = bind-eq-some (check (leb (count key) 255) key) _ rest in
    let (test, same) = check-eq-some (ltb_ℤ (pos 0) amount) amount m positive in
    subst (λ (b : TransferRequest). pos 1 ≤ℤ b.amount_minor) (some_injective made)
      (subst (λ a. pos 1 ≤ℤ a) same (positive_of_test amount test))

with_body-ReachBy :
    {A : Type 0} (user_id : Uuid) (o : Option A) (handler : A → Action Unit) (db : Db)
    → ((body : A) → o ≡ some body → ReachBy user_id db (handler body db).1)
    → ReachBy user_id db (with_body o handler db).1
with_body-ReachBy user_id none handler db h = stays user_id db
with_body-ReachBy user_id (some body) handler db h = h body refl

-- A request commits steps of positive amounts by its own user, if it commits anything.
pub serve-ReachBy :
    (server : Server) (user : UserRecord) (call : Call) (db : Db)
    → ReachBy user.id db (serve server user call db).1
unfolding serve Router.create_wallet Router.deposit Router.withdraw Router.transfer
serve-ReachBy server user (opens currency) db =
    with_body-ReachBy user.id (create_wallet_request currency) _ db λ body _.
      ReachBy-then user.id (Router.create_wallet server user body) (λ _. pure tt) db (λ _ _. refl)
        (ReachBy-then user.id (WalletService.create_wallet server user.id body) _ db (λ _ _. refl)
          (create_wallet-ReachBy server user.id body db))
serve-ReachBy server user (deposits wallet_id amount key) db =
    with_body-ReachBy user.id (movement_request amount key) _ db λ body e.
      ReachBy-then user.id (Router.deposit server user wallet_id body) (λ _. pure tt) db
        (λ _ _. refl)
        (ReachBy-then user.id
          (DepositService.deposit server wallet_id user.id body.amount_minor body.idempotency_key)
          answered db answered_keeps
          (deposit-ReachBy server user.id wallet_id body.amount_minor body.idempotency_key db
            (movement_request-positive amount key body e)))
serve-ReachBy server user (withdraws wallet_id amount key) db =
    with_body-ReachBy user.id (movement_request amount key) _ db λ body e.
      ReachBy-then user.id (Router.withdraw server user wallet_id body) (λ _. pure tt) db
        (λ _ _. refl)
        (ReachBy-then user.id
          (WithdrawalService.withdraw server wallet_id user.id body.amount_minor
            body.idempotency_key)
          answered db answered_keeps
          (withdraw-ReachBy server user.id wallet_id body.amount_minor body.idempotency_key db
            (movement_request-positive amount key body e)))
serve-ReachBy server user (transfers from to amount key) db =
    with_body-ReachBy user.id (transfer_request from to amount key) _ db λ body e.
      ReachBy-then user.id (Router.transfer server user body) (λ _. pure tt) db (λ _ _. refl)
        (ReachBy-then user.id
          (TransferService.transfer server body.from_wallet_id body.to_wallet_id user.id
            body.amount_minor body.idempotency_key)
          answered db answered_keeps
          (transfer-ReachBy server user.id body.from_wallet_id body.to_wallet_id body.amount_minor
            body.idempotency_key db (transfer_request-positive from to amount key body e)))
