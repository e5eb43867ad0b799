-- ===== src/Fiat/WalletRepository.antt =====
-- class WalletRepository of app/fiat/repository.py, over the table `wallets` with the constraints
-- of the migration 80aa87a13169_create_fiat_tables.
pub mod Locked
use super_wallet.Base.{
  ℕ, String, str_eq, ◌==◌, Bool, true, false, not, ◌&&◌, Option, none, some, List, [], ◌∷◌, ◌++◌,
  if◌then◌else◌,
}
use super_wallet.Base.Int.{ℤ, pos, ltb_ℤ}
use super_wallet.Base.Table.{find_row, has_row, select_rows, update_rows, order_by}
use super_wallet.Errors.{
  data_error, assertion_error, unique_violation, check_violation, foreign_key_violation,
}
use super_wallet.Db.{
  WalletRecord, Uuid, Timestamp, Action, pure, raise, gets, modify, raise_if, ◌>>=◌, ◌>>◌,
}
use super_wallet.Base.Text.{fits_varchar}
use super_wallet.Fiat.Columns.{fits_bigint}

abbrev pub has_id : Uuid → WalletRecord → Bool
has_id wallet_id w = w.id == wallet_id

abbrev pub owns_currency : Uuid → String → WalletRecord → Bool
owns_currency user_id currency w = w.user_id == user_id && str_eq w.currency currency

abbrev pub new_wallet : Timestamp → Uuid → Uuid → String → WalletRecord
new_wallet now id user_id currency = record {
  id = id;
  user_id = user_id;
  currency = currency;
  balance_minor = pos 0;
  status = "active";
  created_at = now;
  updated_at = now;
}

unfoldable pub create : Timestamp → Uuid → Uuid → String → Action WalletRecord
create now id user_id currency = do
  raise_if (not (fits_varchar 3 currency)) data_error
  λ db. raise_if (has_row (has_id id) db.wallets) (unique_violation "wallets_pkey") db
  λ db.
      raise_if (has_row (owns_currency user_id currency) db.wallets)
        (unique_violation "uq_wallets_user_currency") db
  λ db.
      raise_if (not (has_row (λ u. u.id == user_id) db.users))
        (foreign_key_violation "wallets_user_id_fkey") db
  modify (λ db. record db { wallets = db.wallets ++ new_wallet now id user_id currency ∷ [] })
  pure (new_wallet now id user_id currency)

unfoldable pub get_by_id : Uuid → Action (Option WalletRecord)
get_by_id wallet_id = gets (λ db. find_row (has_id wallet_id) db.wallets)

unfoldable pub get_by_user : Uuid → Action (List WalletRecord)
get_by_user user_id =
    gets (λ db. order_by (λ w. w.created_at) (select_rows (λ w. w.user_id == user_id) db.wallets))

-- `SELECT … FOR UPDATE`: the row as it is when the lock is held.
unfoldable pub get_and_lock : Uuid → Action (Option WalletRecord)
get_and_lock wallet_id = gets (λ db. find_row (has_id wallet_id) db.wallets)

abbrev pub contains : List Uuid → Uuid → Bool
contains [] a = false
contains (x ∷ xs) a = if x == a then true else contains xs a

-- `id = ANY($1) ORDER BY id FOR UPDATE`
unfoldable pub get_and_lock_multiple : List Uuid → Action (List WalletRecord)
get_and_lock_multiple wallet_ids =
    let sorted_ids = order_by (λ (i : ℕ). i) wallet_ids in
    gets (λ db. order_by (λ w. w.id) (select_rows (λ w. contains sorted_ids w.id) db.wallets))

abbrev pub with_balance : Timestamp → ℤ → WalletRecord → WalletRecord
with_balance now new_balance w = record w { balance_minor = new_balance; updated_at = now }

abbrev returned : Option WalletRecord → Action WalletRecord
returned none = raise assertion_error
returned (some w) = pure w

unfoldable pub update_balance : Timestamp → Uuid → ℤ → Action WalletRecord
unfolding fits_bigint
update_balance now wallet_id new_balance = do
  raise_if (not (fits_bigint new_balance)) data_error
  λ db.
      raise_if (has_row (has_id wallet_id) db.wallets && ltb_ℤ new_balance (pos 0))
        (check_violation "chk_balance_non_negative") db
  modify (λ db. record db {
    wallets = update_rows (has_id wallet_id) (with_balance now new_balance) db.wallets;
  })
  row ← gets (λ db. find_row (has_id wallet_id) db.wallets)
  returned row
