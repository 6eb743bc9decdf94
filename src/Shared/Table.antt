-- ===== src/Shared/Table.antt =====
-- A database table as the list of its rows.
mod Queries
mod Rows
mod Keys
mod Saved
pub use Queries.*
pub use Rows.*
pub use Keys.*
pub use Saved.*
