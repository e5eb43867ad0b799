-- ===== src/Lib.antt =====
-- SuperWallet: the wallets and their double-entry ledger, the users with their sessions, and the
-- outbox with its worker.
--
-- The program is a FastAPI application over PostgreSQL. A request calls a service, which runs its
-- statements through repositories on one connection, mostly inside `async with conn.transaction()`.
-- Services write the audit log and the outbox on the same connection; a worker in a process of its
-- own reads the outbox and sends emails.
--
-- How the program is modelled:
-- - Db: the tables as lists of rows, with the columns of migrations/versions. A call on the
--   connection is an `Action`: it takes the tables to a result or an error, and the tables after it.
--   `transaction` keeps the tables of a block that returns and restores those before a block that
--   raises. The constraints of the migrations are tests that a statement makes before it writes.
--   `Server` holds what the database gives: `now()`, the ids of `gen_random_uuid()`, and which texts an
--   INET column takes. VARCHAR columns refuse longer texts (Base/Text), and `bigint` columns what does
--   not fit in 64 bits (Fiat/Columns). Db/Post has the rules that the proofs about calls are built
--   with.
-- - Base: Boolean tests, lists, integers, queries on tables, and Python's texts by their code points
--   (Base/Text: strip, lower, upper). Money is an integer.
-- - Errors, Errors/Codes: app/users/exception.py, the error classes of app/fiat/service.py, and the
--   exception handler of app/main.py.
-- - Audit: app/core/audit.py.
-- - Fiat: app/fiat. WalletRepository, TransactionRepository and LedgerEntryRepository are the classes
--   of repository.py, method by method; WalletService, DepositService, WithdrawalService and
--   TransferService those of service.py, with the steps that they share in Fiat/Service. The files
--   Outcome and Effect below a service say what it does when it returns. Fiat/Invariant relates
--   balances and ledger, for every order of committed requests; Fiat/Ledger is an abstract ledger of
--   accounts that the transactions implement; Fiat/Requests treats the three
--   movements as one: what a retry and what a failure does. Fiat/History is the history of a wallet.
-- - Outbox, Worker: app/core/outbox.py and app/notifications. The loop runs for a list of passes; each
--   has its clock and what the SMTP server answers. Worker/Attempts and Worker/Queue say how often an
--   event is tried and when a queue is empty.
-- - Security: app/core/security.py and app/users/security.py over a record `Platform` of the
--   packages: argon2, hmac, base64, json, Fernet, pyotp, secrets and the clock.
-- - Users: app/users. The repositories are the classes of repository.py; AuthService and
--   RefreshService are services/auth.py, SessionAuthService services/session_auth.py, ProfileService
--   services/profile.py. The lookups of a user select `selected_columns`, which lack one of the
--   fields of `UserRecord` (Users/Lookups); Users/Failures is about what a rollback undoes.
-- - Http: what the routers read of a request and give back. Http/Dependencies is
--   app/core/dependencies.py, Http/Routes the paths that app/main.py includes.
-- - Fiat/Schemas, Users/Schemas: the request and response models of app/fiat/schemas.py and
--   app/users/schemas; a body that pydantic refuses is `none`. Fiat/Router, Users/Router: the handlers
--   of app/fiat/router.py and app/users/router, over the services. A handler that is annotated with
--   an id and given the user takes a `UserArgument`, a UUID or a `UserRecord`.
--   Fiat/Router/Requests serves any sequence of requests to the routes that write.
-- - Fiat/Tests, Fiat/LedgerTests, Users/Tests, Users/RouterTests and Users/AccountTests: runs on
--   concrete tables, those of Users/Fixture for the user services.
--
-- Ids and points in time are natural numbers, since the code only compares and adds them; a point
-- in time counts microseconds where lifetimes are added. Each call runs alone: a lock is taken when
-- it is asked for, and the order of committed calls is any. Rows with one time are listed in any
-- order in a wallet's pages (`scan`), and in the order of their table elsewhere. No definition
-- needs fuel: loops run over lists.
--
-- Not modelled: FastAPI and pydantic themselves (a body comes with its fields in their JSON types,
-- and its ids are UUIDs), the settings, the connection pool and the SMTP client (configuration and
-- I/O), the texts of error messages, and app/crypto and app/cards, which are stubs. email-validator
-- and the digits beyond ASCII are parameters; `lower` and `upper` change ASCII letters only. A text
-- that is too long for its column by spaces only, which PostgreSQL cuts, is refused.
pub mod Base
pub mod Errors
pub mod Db
pub mod Audit
pub mod Fiat
pub mod Http
pub mod Outbox
pub mod Security
pub mod Users
pub mod Worker
