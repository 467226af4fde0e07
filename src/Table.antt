-- ===== src/Table.antt =====
-- A table of the SQLite database as the list of its rows, in the order of their row ids, and the
-- statements that the program runs on it.
mod Laws
pub mod Sorting
pub mod Keys
pub mod Deletion
pub mod Closing
pub mod Rows
pub mod Quantifiers
pub use Laws.*
unfoldable pub use Defs.*
mod Defs
