-- ===== src/Fiat.antt =====
-- The fiat ledger, app/fiat.
pub mod Columns
pub mod WalletRepository
pub mod TransactionRepository
pub mod LedgerEntryRepository
pub mod Posting
pub mod Completion
pub mod Outcome
pub mod Service
pub mod WalletService
pub mod DepositService
pub mod WithdrawalService
pub mod TransferService
pub mod Invariant
pub mod History
pub mod Totals
pub mod Effect
pub mod Ledger
pub mod Requests
pub mod Schemas
pub mod Router
mod Tests
mod LedgerTests
