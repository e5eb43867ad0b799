-- ===== src/Fiat/Tests.antt =====
-- Concrete tables, runs of the services on them, and the theorems at inputs that meet their
-- hypotheses.
use super_wallet.Base.{
  Option, ap, some, ℕ, ◌+◌, ◌≡◌, refl, String, true, false, none, [], ◌∷◌, arith,
}
use super_wallet.Base.Int.{◌≤ℤ◌, ◌-ℤ◌, negsuc, ℤ, pos, ◌+ℤ◌}
use super_wallet.Db.{Action, Uuid, ok, err, TransactionRecord, Db, Server, WalletRecord, UserRow}
use super_wallet.Fiat.TransactionRepository.{get_by_idempotency_key, new_transaction}
use super_wallet.Fiat.LedgerEntryRepository.{new_entry}
use super_wallet.Fiat.Invariant.Writes.{IsConsistent}
use super_wallet.Fiat.Requests.{deposits, withdraws, Movement, transfers, perform}
use super_wallet.Fiat.TransferService.{transfer_posting, transfer_body, transfer}
use super_wallet.Fiat.DepositService.{deposit_body, deposit}
use super_wallet.Fiat.Invariant.Steps.{here, Reach-IsConsistent}
use super_wallet.Fiat.Requests.Atomicity.{perform_atomic}
use super_wallet.Fiat.TransferService.Outcome.{transfer_tx}
use super_wallet.Fiat.DepositService.Outcome.{deposit_entry, deposit_tx}
use super_wallet.Fiat.Requests.Idempotency.{perform_idempotent, perform-Reach}
use super_wallet.Fiat.WithdrawalService.{withdraw_body, withdraw}
use super_wallet.Fiat.Effect.{Moved}
use super_wallet.Fiat.DepositService.Effect.{deposit_effect, deposit_posts}
use super_wallet.Fiat.TransactionRepository
use super_wallet.Fiat.WalletRepository
use super_wallet.Fiat.LedgerEntryRepository
use super_wallet.Fiat.Columns.{fits_bigint}
use super_wallet.Audit.{log_audit_event}
use super_wallet.Errors.{fiat, insufficient_funds}
use super_wallet.Fiat.WithdrawalService.Outcome.{withdraw_entry, withdraw_tx}
use super_wallet.Fiat.Totals.{Reach-total_balance, total_entries, total_balance}
use super_wallet.Fiat.WithdrawalService.Effect.{withdraw_effect, withdraw_posts, withdraw_refusals}
use super_wallet.Fiat.TransferService.Effect.{transfer_effect, Paid}

abbrev pub server : Server
server = record { now = 100; gen_random_uuid = λ n. n + 1000; reads_inet = λ _. true }

abbrev later : Server
later = record { now = 200; gen_random_uuid = λ n. n + 2000; reads_inet = λ _. true }

abbrev user : ℕ → String → UserRow
user id name = record {
  id = id;
  username = name;
  email = name;
  hashed_password = "h";
  failed_login_count = 0;
  locked_until = none;
  totp_enabled = false;
  totp_secret_encrypted = none;
  email_verified = true;
  is_active = true;
  deleted_at = none;
  created_at = 0;
}

abbrev pub wallet : ℕ → ℕ → String → ℤ → WalletRecord
wallet id user_id currency balance_minor = record {
  id = id;
  user_id = user_id;
  currency = currency;
  balance_minor = balance_minor;
  status = "active";
  created_at = 0;
  updated_at = 0;
}

-- Two users with a wallet in USD each, and a third wallet in EUR.
abbrev pub bank : Db
bank = record {
  wallets = wallet 1 7 "USD" (pos 500) ∷ wallet 2 8 "USD" (pos 200) ∷ wallet 3 8 "EUR" (pos 0) ∷ [];
  transactions =
      new_transaction 0 11 "k1" "deposit" (pos 500) "USD" none
      ∷ new_transaction 0 12 "k2" "deposit" (pos 200) "USD" none
      ∷ [];
  ledger_entries =
      new_entry 0 21 11 1 (pos 500) "credit" (pos 500)
      ∷ new_entry 0 22 12 2 (pos 200) "credit" (pos 200)
      ∷ [];
  audit_logs = [];
  users = user 7 "ann" ∷ user 8 "bob" ∷ [];
  sessions = [];
  verification_tokens = [];
  outbox_events = [];
}

pub bank-IsConsistent : IsConsistent bank
unfolding ◌+ℤ◌
bank-IsConsistent = record {
  unique_ids = (refl, (refl, (refl, tt)));
  reconciled = (
    record { balance = refl; nonneg = omega arith },
    (
      record { balance = refl; nonneg = omega arith },
      (record { balance = refl; nonneg = omega arith }, tt),
    ),
  );
  unique_keys = (refl, (refl, tt));
  referenced = (
    record { wallet = refl; transaction = refl },
    (record { wallet = refl; transaction = refl }, tt),
  );
}

-- The services with all that they call open, so that a test computes.
run : Server → Uuid → String → Movement → Action (Option TransactionRecord)
unfolding perform deposit deposit_body withdraw withdraw_body transfer transfer_body
    transfer_posting TransactionRepository.get_by_idempotency_key TransactionRepository.create
    WalletRepository.get_and_lock WalletRepository.get_and_lock_multiple
    WalletRepository.update_balance LedgerEntryRepository.create fits_bigint log_audit_event ◌+ℤ◌
    ◌-ℤ◌
run = perform

-- Ann pays Bob, and then cannot pay more than she has left.
abbrev pub pay : Movement
pay = transfers 1 2 (pos 120)

abbrev pub paid : Db
paid = (perform server 7 "k3" pay bank).1

pay_run :
    paid.wallets
    ≡ record (wallet 1 7 "USD" (pos 380)) { updated_at = 100 }
      ∷ record (wallet 2 8 "USD" (pos 320)) { updated_at = 100 }
      ∷ wallet 3 8 "EUR" (pos 0)
      ∷ []
unfolding run
pay_run = refl

overdraft_run :
    (perform later 7 "k4" (withdraws 1 (pos 381)) paid).0
    ≡ err (fiat (insufficient_funds (pos 380) (pos 381)))
unfolding run
overdraft_run = refl

-- A negative amount at the service lowers a balance, down to zero: only the request schema refuses it.
negative_deposit_run :
    (perform server 7 "k3" (deposits 1 (negsuc 499)) bank).1.wallets
    ≡ record (wallet 1 7 "USD" (pos 0)) { updated_at = 100 }
      ∷ wallet 2 8 "USD" (pos 200)
      ∷ wallet 3 8 "EUR" (pos 0)
      ∷ []
unfolding run
negative_deposit_run = refl

Reach-IsConsistent_example : IsConsistent paid
Reach-IsConsistent_example =
    Reach-IsConsistent (perform-Reach server 7 "k3" pay bank) bank-IsConsistent

perform_atomic_example : (perform server 7 "k3" (withdraws 1 (pos 501)) bank).1 ≡ bank
unfolding run
perform_atomic_example =
    perform_atomic server 7 "k3" (withdraws 1 (pos 501))
      (fiat (insufficient_funds (pos 500) (pos 501))) bank bank refl

abbrev pay_tx : TransactionRecord
pay_tx = transfer_tx server 1 2 7 (pos 120) "k3" (wallet 1 7 "USD" (pos 500))

perform_idempotent_example :
    perform later 8 "k3" (deposits 2 (pos 9)) paid ≡ (ok (some pay_tx), paid)
unfolding run
perform_idempotent_example =
    perform_idempotent server later 7 8 "k3" pay (deposits 2 (pos 9)) (some pay_tx) bank paid paid
      bank-IsConsistent refl here tt

deposit_effect_example :
    (w : WalletRecord) × (w.user_id ≡ 7)
    × (some (deposit_tx server 1 7 (pos 30) "k3" (wallet 1 7 "USD" (pos 500)))
        ≡ some (deposit_tx server 1 7 (pos 30) "k3" w))
    × Moved 100
        (deposit_tx server 1 7 (pos 30) "k3" w)
        w
        (deposit_entry server 1 7 (pos 30) "k3" w)
        bank
        (deposit server 1 7 (pos 30) "k3" bank).1
unfolding run
deposit_effect_example = deposit_effect server 1 7 (pos 30) "k3" bank _ _ refl refl

deposit_posts_example :
    (deposit server 1 7 (pos 30) "k3" bank).0
    ≡ ok (some (deposit_tx server 1 7 (pos 30) "k3" (wallet 1 7 "USD" (pos 500))))
unfolding run
deposit_posts_example =
    ap (λ p. p.0)
      (deposit_posts server 1 7 (pos 30) "k3" (wallet 1 7 "USD" (pos 500)) bank (record {
        found = refl;
        mine = refl;
        inserted = record { fits = refl; texts_fit = refl; new_key = refl; new_id = refl };
        entry = record {
          fits = refl;
          covered = refl;
          there = refl;
          amount_fits = refl;
          new = refl;
          of_transaction = refl;
        };
        user = refl;
      }))

withdraw_effect_example :
    (w : WalletRecord) × (w.user_id ≡ 7)
    × (pos 30 ≤ℤ w.balance_minor)
    × (some (withdraw_tx server 1 7 (pos 30) "k3" (wallet 1 7 "USD" (pos 500)))
        ≡ some (withdraw_tx server 1 7 (pos 30) "k3" w))
    × Moved 100
        (withdraw_tx server 1 7 (pos 30) "k3" w)
        w
        (withdraw_entry server 1 7 (pos 30) "k3" w)
        bank
        (withdraw server 1 7 (pos 30) "k3" bank).1
unfolding run
withdraw_effect_example = withdraw_effect server 1 7 (pos 30) "k3" bank _ _ refl refl

withdraw_posts_example :
    (withdraw server 1 7 (pos 30) "k3" bank).0
    ≡ ok (some (withdraw_tx server 1 7 (pos 30) "k3" (wallet 1 7 "USD" (pos 500))))
unfolding run
withdraw_posts_example =
    ap (λ p. p.0)
      (withdraw_posts server 1 7 (pos 30) "k3" (wallet 1 7 "USD" (pos 500)) bank (record {
        found = refl;
        mine = refl;
        enough = refl;
        inserted = record { fits = refl; texts_fit = refl; new_key = refl; new_id = refl };
        entry = record {
          fits = refl;
          covered = refl;
          there = refl;
          amount_fits = refl;
          new = refl;
          of_transaction = refl;
        };
        user = refl;
      }))

withdraw_refusals_example :
    withdraw server 1 7 (pos 501) "k3" bank
    ≡ (err (fiat (insufficient_funds (pos 500) (pos 501))), bank)
withdraw_refusals_example =
    (withdraw_refusals server 1 7 (pos 501) "k3" bank refl).2 (wallet 1 7 "USD" (pos 500)) refl refl
      (omega arith)

transfer_effect_example :
    (s : WalletRecord) × (t : WalletRecord) × (some pay_tx
      ≡ some (transfer_tx server 1 2 7 (pos 120) "k3" s))
    × Paid server 1 2 7 (pos 120) "k3" s t bank (transfer server 1 2 7 (pos 120) "k3" bank).1
unfolding run
transfer_effect_example =
    transfer_effect server 1 2 7 (pos 120) "k3" bank _ _ bank-IsConsistent refl refl

Reach-total_balance_example : total_balance paid.wallets ≡ total_entries paid.ledger_entries
Reach-total_balance_example =
    Reach-total_balance (perform-Reach server 7 "k3" pay bank) bank-IsConsistent
