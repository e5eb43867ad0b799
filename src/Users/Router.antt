-- ===== src/Users/Router.antt =====
-- The handlers of app/users/router, over the services. A body has passed its request model.
pub mod Auth
pub mod SessionAuth
pub mod Profile
pub mod Answers
use super_wallet.Base.{Option, none, some}
use super_wallet.Errors.{Error}
use super_wallet.Db.{Db, Result, ok, err, Action}

module _ {A : Type 0} where
  abbrev pub recovered : (Error → Option A) → Result A → Db → Result A × Db
  recovered handle (ok a) db = (ok a, db)
  recovered handle (err e) db = elim (handle e) [ none ↦ (err e, db) | some a ↦ (ok a, db) ]

  -- `try: … except …: return …`
  abbrev pub catch : Action A → (Error → Option A) → Action A
  catch m handle db = let (r, db') = m db in recovered handle r db'
