-- ===== src/Fiat/Invariant.antt =====
-- The consistency of the fiat tables: what the rows of `wallets`, `transactions` and
-- `ledger_entries` say of one another.
pub mod Writes
pub mod Wallets
pub mod Steps
pub mod Bounds
