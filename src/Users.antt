-- ===== src/Users.antt =====
-- app/users: the repositories and the services over them.
mod Fixture
mod Tests
mod RouterTests
mod AccountTests
pub mod Schemas
pub mod UserRepository
pub mod SessionRepository
pub mod VerificationTokenRepository
pub mod AuthService
pub mod RefreshService
pub mod SessionAuthService
pub mod ProfileService
pub mod Lookups
pub mod Failures
pub mod Rotation
pub mod Reset
pub mod Ownership
pub mod ResetOnce
pub mod Reads
pub mod Registered
pub mod Router
