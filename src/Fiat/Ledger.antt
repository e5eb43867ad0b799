-- ===== src/Fiat/Ledger.antt =====
-- What the fiat services promise, without tables: accounts, and the movements of money that an owner
-- may cause. `Ledger/Refinement` shows that the transactions do nothing else.
pub mod Refinement
pub mod Safety
use super_wallet.Base.{
  ◌∷◌, [], List, ◌≢◌, ◌≡◌, ℕ, ◌==◌, Bool, String, Option, none, some, if◌then◌else◌,
}
use super_wallet.Base.Int.{ℤ, pos, ◌+ℤ◌, ◌-ℤ◌, ◌≤ℤ◌}
use super_wallet.Db.{Db, Uuid, WalletRecord}
use super_wallet.Fiat.Effect.{wallet_row}

-- An account: who owns it, in which currency, and what is in it.
pub record Account : Type 0 where
  pub user_id : Uuid
  pub currency : String
  pub balance : ℤ

abbrev pub Accounts : Type 0
Accounts = Uuid → Option Account

abbrev pub set_account : Uuid → Account → Accounts → Accounts
set_account id a accounts k = if k == id then some a else accounts k

-- A movement of a positive amount that `user_id` causes. Money enters and leaves the user's own
-- accounts; a payment takes from an account of the user what it gives to the other account.
pub data Movement (user_id : Uuid) (accounts : Accounts) : Accounts → Type 0 where
  nothing_moves : Movement user_id accounts accounts
  opens :
      (id : Uuid) (currency : String)
      → accounts id ≡ none
      → Movement user_id accounts (
          set_account id
            (record { user_id = user_id; currency = currency; balance = pos 0 })
            accounts)
  enters :
      (id : Uuid) (amount : ℤ) (a : Account)
      → accounts id ≡ some a
      → a.user_id ≡ user_id
      → pos 1 ≤ℤ amount
      → Movement user_id accounts
          (set_account id (record a { balance = a.balance +ℤ amount }) accounts)
  leaves :
      (id : Uuid) (amount : ℤ) (a : Account)
      → accounts id ≡ some a
      → a.user_id ≡ user_id
      → pos 1 ≤ℤ amount
      → amount ≤ℤ a.balance
      → Movement user_id accounts
          (set_account id (record a { balance = a.balance -ℤ amount }) accounts)
  pays :
      (payer payee : Uuid) (amount : ℤ) (a b : Account)
      → accounts payer ≡ some a
      → accounts payee ≡ some b
      → payer ≢ payee
      → a.user_id ≡ user_id
      → a.currency ≡ b.currency
      → pos 1 ≤ℤ amount
      → amount ≤ℤ a.balance
      → Movement user_id accounts (
          set_account payee
            (record b { balance = b.balance +ℤ amount })
            (set_account payer (record a { balance = a.balance -ℤ amount }) accounts))

-- Movements by the listed users, the last one first.
pub data Movements (start : Accounts) : List Uuid → Accounts → Type 0 where
  no_movement : Movements start [] start
  one_more :
      {users : List Uuid} {user_id : Uuid} {a b : Accounts}
      → Movements start users a
      → Movement user_id a b
      → Movements start (user_id ∷ users) b

abbrev pub account : WalletRecord → Account
account w = record { user_id = w.user_id; currency = w.currency; balance = w.balance_minor }

abbrev pub account_of : Option WalletRecord → Option Account
account_of none = none
account_of (some w) = some (account w)

-- The accounts that a client sees: ids, owners, currencies and balances, and neither times nor the
-- order of the rows.
abbrev pub accounts_of : Db → Accounts
accounts_of db id = account_of (wallet_row id db)
