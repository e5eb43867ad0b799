-- ===== src/Db/Monad.antt =====
-- A call on a connection: the result, or what it raises, and the tables after it. A statement that
-- fails changes nothing, and `transaction` rolls back when its block raises.
use super_wallet.Base.{ℕ, Bool, true, false, List, String}
use super_wallet.Errors.{Error}
use super_wallet.Db.Rows.{
  WalletRecord, TransactionRecord, LedgerEntryRecord, AuditLog, UserRow, SessionRow,
  VerificationTokenRow, OutboxEventRow, Uuid, Timestamp,
}

pub record Db : Type 0 where
  pub wallets : List WalletRecord
  pub transactions : List TransactionRecord
  pub ledger_entries : List LedgerEntryRecord
  pub audit_logs : List AuditLog
  pub users : List UserRow
  pub sessions : List SessionRow
  pub verification_tokens : List VerificationTokenRow
  pub outbox_events : List OutboxEventRow

-- The database server, as one call meets it: `now()`, and the UUIDs that `gen_random_uuid()` draws
-- in order; the driver reads a text for a column of type `inet` as an address, or refuses it.
pub record Server : Type 0 where
  pub now : Timestamp
  pub gen_random_uuid : ℕ → Uuid
  pub reads_inet : String → Bool

pub data Result (A : Type 0) : Type 0 where
  ok : A → Result A
  err : Error → Result A

abbrev pub Action : Type 0 → Type 0
Action A = Db → Result A × Db

module _ {A : Type 0} where
  abbrev pub pure : A → Action A
  pure a db = (ok a, db)

  abbrev pub raise : Error → Action A
  raise e db = (err e, db)

  abbrev pub gets : (Db → A) → Action A
  gets f db = (ok (f db), db)

  -- `async with conn.transaction():` commits on a return, and rolls back on an exception.
  abbrev pub settle : Db → Result A → Db → Result A × Db
  settle before (ok a) after = (ok a, after)
  settle before (err e) after = (err e, before)

  abbrev pub transaction : Action A → Action A
  transaction body db = let (r, db') = body db in settle db r db'

abbrev pub modify : (Db → Db) → Action Unit
modify f db = (ok tt, f db)

abbrev pub raise_if : Bool → Error → Action Unit
raise_if true e db = (err e, db)
raise_if false e db = (ok tt, db)

module _ {A B : Type 0} where
  abbrev pub continue : Result A → (A → Action B) → Action B
  continue (ok a) f db = f a db
  continue (err e) f db = (err e, db)

infixl 5 ◌>>=◌ ◌>>◌
abbrev pub ◌>>=◌ : {A B : Type 0} → Action A → (A → Action B) → Action B
◌>>=◌ m f db = let (r, db') = m db in continue r f db'

abbrev pub ◌>>◌ : {A B : Type 0} → Action A → Action B → Action B
m >> k = m >>= λ _. k
