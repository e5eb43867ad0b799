-- ===== src/Fiat/LedgerTests.antt =====
-- The theorems on the ledger and on the pages, at the tables of `Tests`.
use super_wallet.Base.{none, true, false, List, ◌≡◌, refl, ◌∷◌, [], some, arith}
use super_wallet.Base.Int.{pos, negsuc, ◌≤ℤ◌}
use super_wallet.Db.{ok, Db, WalletRecord, transaction}
use super_wallet.Fiat.Columns.{fits_bigint}
use super_wallet.Fiat.Effect.{wallet_row}
use super_wallet.Fiat.TransferService.{transfer_body}
use super_wallet.Fiat.Requests.Idempotency.{perform-Reach}
use super_wallet.Fiat.Invariant.Steps.{Reach, here, next, transfers}
use super_wallet.Fiat.Invariant.Bounds.{IsBounded, Reach-IsBounded}
use super_wallet.Fiat.Ledger.{Movements, accounts_of}
use super_wallet.Fiat.Ledger.Refinement.{Reach-Movements}
use super_wallet.Users.UserRepository.{UserRecord}
use super_wallet.Fiat.Router.Requests.{Call}
use super_wallet.Fiat.Router.Requests.Safety.{Visit, served, Kept, served_keeps_money}
use super_wallet.Fiat.Ledger.Safety.{idle_owner_keeps_money}
use super_wallet.Fiat.TransactionRepository.{list_for_wallet, distinct, join, new_transaction}
use super_wallet.Fiat.Tests.{server, wallet, bank, pay, paid, bank-IsConsistent}

bank-IsBounded : IsBounded bank
unfolding fits_bigint
bank-IsBounded = record {
  wallets = (refl, (refl, (refl, tt)));
  transactions = (refl, (refl, tt));
  entries = (
    record { amount = refl; balance = refl; nonneg = omega arith },
    (record { amount = refl; balance = refl; nonneg = omega arith }, tt),
  );
}

Reach-IsBounded_example : IsBounded paid
Reach-IsBounded_example =
    Reach-IsBounded (perform-Reach server 7 "k3" pay bank) bank-IsConsistent bank-IsBounded

-- Ann pays Bob.
abbrev after_payment : Db
after_payment = (transaction (transfer_body server 1 2 7 (pos 120) "k3") bank).1

abbrev payment : Reach bank after_payment
payment = next here (transfers server 1 2 7 (pos 120) "k3" bank (λ e. omega (arith, e)))

Reach-Movements_example : Movements (accounts_of bank) (7 ∷ []) (accounts_of after_payment)
Reach-Movements_example = Reach-Movements payment (tt, omega arith) bank-IsConsistent

idle_owner_keeps_money_example :
    (now : WalletRecord) × (wallet_row 2 after_payment ≡ some now)
    × (now.user_id ≡ 8)
    × (now.currency ≡ "USD")
    × (pos 200 ≤ℤ now.balance_minor)
idle_owner_keeps_money_example =
    idle_owner_keeps_money payment 2 (wallet 2 8 "USD" (pos 200)) (tt, omega arith)
      bank-IsConsistent refl ((λ e. omega (arith, e)), tt)

abbrev ann : UserRecord
ann = record {
  id = 7;
  username = "ann";
  email = "ann";
  hashed_password = "h";
  failed_login_count = 0;
  locked_until = none;
  totp_enabled = false;
  totp_secret_encrypted = none;
  email_verified = true;
  is_active = true;
}

-- Ann pays Bob, asks for a negative amount, and tries to take from Bob's wallet.
abbrev visits : List Visit
visits =
    record { server = server; user = ann; call = Call.transfers 1 2 (pos 120) "k3" }
    ∷ record { server = server; user = ann; call = Call.deposits 1 (negsuc 4) "k4" }
    ∷ record { server = server; user = ann; call = Call.withdraws 2 (pos 50) "k5" }
    ∷ []

served_keeps_money_example : Kept 2 (wallet 2 8 "USD" (pos 200)) (served visits bank)
served_keeps_money_example =
    served_keeps_money visits 2 (wallet 2 8 "USD" (pos 200)) bank bank-IsConsistent refl
      ((λ e. omega (arith, e)), ((λ e. omega (arith, e)), ((λ e. omega (arith, e)), tt)))

-- The wallet 1 has one transaction.
history_run :
    list_for_wallet (λ ts. ts) 1 1 0 bank
    ≡ (ok (new_transaction 0 11 "k1" "deposit" (pos 500) "USD" none ∷ []), bank)
unfolding list_for_wallet distinct join
history_run = refl
