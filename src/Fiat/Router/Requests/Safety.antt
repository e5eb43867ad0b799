-- ===== src/Fiat/Router/Requests/Safety.antt =====
-- What the requests of other users leave of an owner's money.
use super_wallet.Base.{◌≡◌, ◌≢◌, refl, sym, subst, ◌∙◌, arith, some, List, [], ◌∷◌, All}
use super_wallet.Base.Int.{ℤ, ◌≤ℤ◌}
use super_wallet.Db.{Db, Server, Uuid, WalletRecord}
use super_wallet.Users.UserRepository.{UserRecord}
use super_wallet.Fiat.Effect.{wallet_row}
use super_wallet.Fiat.Invariant.Writes.{IsConsistent}
use super_wallet.Fiat.Invariant.Steps.{Reach-IsConsistent}
use super_wallet.Fiat.Ledger.Refinement.{actors}
use super_wallet.Fiat.Ledger.Safety.{idle_owner_keeps_money}
use super_wallet.Fiat.Router.Requests.{Call, serve, serve-ReachBy}

-- A request as the server meets it.
pub record Visit : Type 0 where
  pub server : Server
  pub user : UserRecord
  pub call : Call

-- The tables after the requests.
abbrev pub served : List Visit → Db → Db
served [] db = db
served (v ∷ visits) db = served visits (serve v.server v.user v.call db).1

-- A wallet that kept its owner, its currency and its money.
pub record Kept (id : Uuid) (w : WalletRecord) (db : Db) : Type 0 where
  pub now : WalletRecord
  pub there : wallet_row id db ≡ some now
  pub owner : now.user_id ≡ w.user_id
  pub currency : now.currency ≡ w.currency
  pub no_less : w.balance_minor ≤ℤ now.balance_minor

All-apart :
    (owner user_id : Uuid) (users : List Uuid)
    → owner ≢ user_id
    → All (λ u. u ≡ user_id) users
    → All (λ u. owner ≢ u) users
All-apart owner user_id [] apart all = tt
All-apart owner user_id (u ∷ users) apart all =
    (λ e. apart (e ∙ all.0), All-apart owner user_id users apart all.1)

le_trans : (a b c : ℤ) → a ≤ℤ b → b ≤ℤ c → a ≤ℤ c
le_trans a b c h k = omega arith

-- Whatever requests other users send, whatever their bodies hold and however each ends, an owner's
-- wallet is still there, with its owner and currency, and holds at least what it held. The tables
-- are consistent at the start.
pub served_keeps_money :
    (visits : List Visit) (id : Uuid) (w : WalletRecord) (db : Db)
    → IsConsistent db
    → wallet_row id db ≡ some w
    → All (λ v. w.user_id ≢ v.user.id) visits
    → Kept id w (served visits db)
served_keeps_money [] id w db c found others = record {
  now = w;
  there = found;
  owner = refl;
  currency = refl;
  no_less = omega arith;
}
served_keeps_money (v ∷ visits) id w db c found others =
    let r = serve-ReachBy v.server v.user v.call db in
    let (x, there, owner, currency, more) =
      idle_owner_keeps_money r.reach id w r.accepted c found
        (All-apart w.user_id v.user.id (actors r.reach) others.0 r.by_user) in
    let k =
      served_keeps_money visits id x (serve v.server v.user v.call db).1
        (Reach-IsConsistent r.reach c) there
        (subst (λ u. All (λ (y : Visit). u ≢ y.user.id) visits) (sym owner) others.1) in
    record {
      now = k.now;
      there = k.there;
      owner = k.owner ∙ owner;
      currency = k.currency ∙ currency;
      no_less = le_trans w.balance_minor x.balance_minor k.now.balance_minor more k.no_less;
    }
