-- ===== src/Db/Post.antt =====
-- What holds after a call that returns, with a rule for each way to build a call. A call that
-- raises says nothing here; theorems about errors are stated on their own.
use super_wallet.Base.{sym, ap, Bool, true, false, ◌≡◌, refl, subst}
use super_wallet.Errors.{Error}
use super_wallet.Db.Monad.{
  Db, Result, ok, err, Action, settle, transaction, raise_if, continue, ◌>>=◌,
}

abbrev pub Post : {A : Type 0} → (A → Db → Type 0) → Result A × Db → Type 0
Post Q (ok a, db) = Q a db
Post Q (err e, db) = Unit

module _ {A B : Type 0} where
  Post-continue :
      (Q : A → Db → Type 0) (R : B → Db → Type 0) (f : A → Action B) (r : Result A) (db : Db)
      → Post Q (r, db)
      → ((a : A) (db' : Db) → Q a db' → Post R (f a db'))
      → Post R (continue r f db)
  Post-continue Q R f (ok a) db q k = k a db q
  Post-continue Q R f (err e) db q k = tt

  pub Post-bind :
      (Q : A → Db → Type 0) (R : B → Db → Type 0) (m : Action A) (f : A → Action B) (db : Db)
      → Post Q (m db)
      → ((a : A) (db' : Db) → Q a db' → Post R (f a db'))
      → Post R ((m >>= f) db)
  Post-bind Q R m f db q k = let (r, db') = m db in Post-continue Q R f r db' q k

module _ {A : Type 0} where
  Post-settle :
      (Q : A → Db → Type 0) (before : Db) (r : Result A) (db : Db)
      → Post Q (r, db)
      → Post Q (settle before r db)
  Post-settle Q before (ok a) db q = q
  Post-settle Q before (err e) db q = tt

  pub Post-transaction :
      (Q : A → Db → Type 0) (m : Action A) (db : Db) → Post Q (m db) → Post Q (transaction m db)
  Post-transaction Q m db q = let (r, db') = m db in Post-settle Q db r db' q

  pub Post-any : (p : Result A × Db) → Post (λ _ _. Unit {0}) p
  Post-any (ok a, db) = tt
  Post-any (err e, db) = tt

  pub Post-weaken :
      (Q R : A → Db → Type 0) (p : Result A × Db)
      → Post Q p
      → ((a : A) (db : Db) → Q a db → R a db)
      → Post R p
  Post-weaken Q R (ok a, db) q f = f a db q
  Post-weaken Q R (err e, db) q f = tt

  settle_keeps :
      (P : Db → Type 0) (before : Db) (r : Result A) (db : Db)
      → P before
      → Post (λ _. P) (r, db)
      → P (settle before r db).1
  settle_keeps P before (ok a) db old new = new
  settle_keeps P before (err e) db old new = old

  -- A transaction keeps what its block establishes and its rollback restores.
  pub transaction_keeps :
      (P : Db → Type 0) (m : Action A) (db : Db)
      → P db
      → Post (λ _. P) (m db)
      → P (transaction m db).1
  transaction_keeps P m db old new = let (r, db') = m db in settle_keeps P db r db' old new

  settle_raises :
      (before : Db) (r : Result A) (db : Db) (e : Error) (db' : Db)
      → ◌≡◌ {A = Result A × Db} (settle before r db) (err e, db')
      → db' ≡ before
  settle_raises before (ok a) db e db' h = cc
  settle_raises before (err x) db e db' h = sym (ap (λ p. p.1) h)

  -- A transaction that raises is rolled back.
  pub transaction_raises :
      (m : Action A) (e : Error) (db db' : Db) → transaction m db ≡ (err e, db') → db' ≡ db
  transaction_raises m e db db' h = let (r, d) = m db in settle_raises db r d e db' h

  -- The postcondition of a call that is known to return.
  pub Post-result :
      (Q : A → Db → Type 0) (p : Result A × Db) {a : A} {db' : Db}
      → p ≡ (ok a, db')
      → Post Q p
      → Q a db'
  Post-result Q p e q = subst (Post Q) e q

-- A test that raises: what follows may use that it failed.
module _ {B : Type 0} where
  pub Post-raise_if :
      (R : B → Db → Type 0) (b : Bool) (e : Error) (k : Action B) (db : Db)
      → (b ≡ false → Post R (k db))
      → Post R ((raise_if b e >>= λ _. k) db)
  Post-raise_if R true e k db h = tt
  Post-raise_if R false e k db h = h refl

  -- A test before a call that is rolled back when it raises.
  pub raise_if_raises :
      (b : Bool) (x : Error) (k : Action B) (e : Error) (db db' : Db)
      → (raise_if b x >>= λ _. k) db ≡ (err e, db')
      → (k db ≡ (err e, db') → db' ≡ db)
      → db' ≡ db
  raise_if_raises true x k e db db' h rest = sym (ap (λ p. p.1) h)
  raise_if_raises false x k e db db' h rest = rest h
