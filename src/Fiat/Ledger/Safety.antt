-- ===== src/Fiat/Ledger/Safety.antt =====
-- What the ledger promises to an owner.
use super_wallet.Base.{
  subst, ==_iff, ap, ◌≡◌, ◌≢◌, refl, sym, ◌∙◌, inl, inr, Option, none, some, List, ◌==◌, arith, All,
  Bool-cases,
}
use super_wallet.Base.Int.{ℤ, pos, ◌+ℤ◌, ◌-ℤ◌, ◌≤ℤ◌, int_laws}
use super_wallet.Db.{Db, Uuid, WalletRecord}
use super_wallet.Fiat.Effect.{wallet_row}
use super_wallet.Fiat.Invariant.Writes.{IsConsistent}
use super_wallet.Fiat.Invariant.Steps.{Reach}
use super_wallet.Fiat.Ledger.{
  Account, Accounts, set_account, Movement, nothing_moves, opens, enters, leaves, pays, Movements,
  no_movement, one_more, account, account_of, accounts_of,
}
use super_wallet.Fiat.Ledger.Refinement.{actors, AllAccepted, Reach-Movements}
use super_wallet.Http.{some_injective}

-- The account is still there, with its owner and its currency and at least as much in it.
record Keeps (id : Uuid) (a : Account) (accounts : Accounts) : Type 0 where
  now : Account
  there : accounts id ≡ some now
  owner : now.user_id ≡ a.user_id
  currency : now.currency ≡ a.currency
  no_less : a.balance ≤ℤ now.balance

kept : (id : Uuid) (a : Account) (accounts : Accounts) → accounts id ≡ some a → Keeps id a accounts
kept id a accounts found = record {
  now = a;
  there = found;
  owner = refl;
  currency = refl;
  no_less = omega arith;
}

nothing_found : {A : Type 0} {a : A} → ¬ (none ≡ some a)
nothing_found h = cc

-- Another id is not the same id.
set_account_other :
    (k id : Uuid) (x : Account) (accounts : Accounts)
    → k ≢ id
    → set_account id x accounts k ≡ accounts k
set_account_other k id x accounts apart = ground arith

Keeps-other :
    (id j : Uuid) (a x : Account) (accounts : Accounts)
    → id ≢ j
    → Keeps id a accounts
    → Keeps id a (set_account j x accounts)
Keeps-other id j a x accounts apart k = record {
  now = k.now;
  there = set_account_other id j x accounts apart ∙ k.there;
  owner = k.owner;
  currency = k.currency;
  no_less = k.no_less;
}

set_account_same :
    (k id : Uuid) (x : Account) (accounts : Accounts)
    → k ≡ id
    → set_account id x accounts k ≡ some x
set_account_same k id x accounts same = ground arith

same_account :
    (id j : Uuid) (a y : Account) (accounts : Accounts) (k : Keeps id a accounts)
    → accounts j ≡ some y
    → id ≡ j
    → k.now ≡ y
same_account id j a y accounts k found same =
    some_injective (sym k.there ∙ ap accounts same ∙ found)

le_trans : (a b c : ℤ) → a ≤ℤ b → b ≤ℤ c → a ≤ℤ c
le_trans a b c h k = omega int_laws

-- The account that is set had no more in it.
Keeps-more :
    (id j : Uuid) (a y : Account) (balance : ℤ) (accounts : Accounts)
    → accounts j ≡ some y
    → y.balance ≤ℤ balance
    → Keeps id a accounts
    → Keeps id a (set_account j (record y { balance = balance }) accounts)
Keeps-more id j a y balance accounts found more k = elim (Bool-cases (id == j)) [
  | inl e ↦
      let same : id ≡ j = (==_iff id j).0 e in
      let now : k.now ≡ y = same_account id j a y accounts k found same in
      record {
        now = record y { balance = balance };
        there = set_account_same id j _ accounts same;
        owner = ap (λ (x : Account). x.user_id) (sym now) ∙ k.owner;
        currency = ap (λ (x : Account). x.currency) (sym now) ∙ k.currency;
        no_less =
            le_trans a.balance y.balance balance
              (subst (λ (x : Account). a.balance ≤ℤ x.balance) now k.no_less) more;
      }
  | inr e ↦ Keeps-other id j a (record y { balance = balance }) accounts (ground arith) k
]

-- The accounts of a user who does nothing are not those of a user who acts.
owned_apart :
    (id j user_id : Uuid) (a y : Account) (accounts : Accounts)
    → Keeps id a accounts
    → accounts j ≡ some y
    → y.user_id ≡ user_id
    → a.user_id ≢ user_id
    → id ≢ j
owned_apart id j user_id a y accounts k found mine idle same = idle (
    sym k.owner
    ∙ ap (λ (x : Account). x.user_id) (same_account id j a y accounts k found same)
    ∙ mine)

grows : (b m : ℤ) → pos 1 ≤ℤ m → b ≤ℤ b +ℤ m
grows b m h = omega int_laws

Keeps-Movement :
    (id user_id : Uuid) (a : Account) {before after : Accounts}
    → a.user_id ≢ user_id
    → Movement user_id before after
    → Keeps id a before
    → Keeps id a after
Keeps-Movement id user_id a idle nothing_moves k = k
Keeps-Movement id user_id a {before} idle (opens j currency new) k =
    Keeps-other id j a _ before (λ same. nothing_found (sym new ∙ sym (ap before same) ∙ k.there)) k
Keeps-Movement id user_id a {before} idle (enters j m y found mine positive) k =
    Keeps-more id j a y (y.balance +ℤ m) before found (grows y.balance m positive) k
Keeps-Movement id user_id a {before} idle (leaves j m y found mine positive enough) k =
    Keeps-other id j a _ before (owned_apart id j user_id a y before k found mine idle) k
Keeps-Movement id user_id a {before} idle
      (pays j i m y z found there apart mine same positive enough) k =
    Keeps-more id i a z (z.balance +ℤ m)
      (set_account j (record y { balance = y.balance -ℤ m }) before)
      (set_account_other i j _ before (λ e. apart (sym e)) ∙ there) (grows z.balance m positive)
      (Keeps-other id j a _ before (owned_apart id j user_id a y before k found mine idle) k)

Keeps-Movements :
    (id : Uuid) (a : Account) {start end : Accounts} {users : List Uuid}
    → All (λ u. a.user_id ≢ u) users
    → Movements start users end
    → Keeps id a start
    → Keeps id a end
Keeps-Movements id a idle no_movement k = k
Keeps-Movements id a idle (one_more {user_id = u} ms m) k =
    Keeps-Movement id u a idle.0 m (Keeps-Movements id a idle.1 ms k)

row_of_account :
    (o : Option WalletRecord) (a : Account)
    → account_of o ≡ some a
    → (w : WalletRecord) × (o ≡ some w) × (account w ≡ a)
row_of_account none a h = absurd (nothing_found h)
row_of_account (some w) a h = (w, refl, some_injective h)

-- While a user calls none of the services, no call of anyone else takes money from a wallet of the
-- user: whatever transactions of positive amounts commit from consistent tables, the wallet is still
-- there, with the same owner and currency, and holds at least what it held.
pub idle_owner_keeps_money :
    {start db : Db} (r : Reach start db) (id : Uuid) (w : WalletRecord)
    → AllAccepted r
    → IsConsistent start
    → wallet_row id start ≡ some w
    → All (λ u. w.user_id ≢ u) (actors r)
    → (now : WalletRecord) × (wallet_row id db ≡ some now)
      × (now.user_id ≡ w.user_id)
      × (now.currency ≡ w.currency)
      × (w.balance_minor ≤ℤ now.balance_minor)
idle_owner_keeps_money {start} {db} r id w ok c found idle =
    let k =
      Keeps-Movements id (account w) idle (Reach-Movements r ok c)
        (kept id (account w) (accounts_of start) (ap account_of found)) in
    let (now, there, same) = row_of_account (wallet_row id db) k.now k.there in
    (
      now,
      there,
      ap (λ (x : Account). x.user_id) same ∙ k.owner,
      ap (λ (x : Account). x.currency) same ∙ k.currency,
      subst (λ (x : Account). w.balance_minor ≤ℤ x.balance) (sym same) k.no_less,
    )
