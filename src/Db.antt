-- ===== src/Db.antt =====
-- The database: rows, tables, and calls on a connection.
mod Rows
mod Monad
pub mod Post
pub use Rows.*
pub use Monad.*
