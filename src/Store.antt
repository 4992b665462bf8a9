-- ===== src/Store.antt =====
-- sign/esign.py, its tables: the rows of agreements, signers, fields and audit events, and the
-- state that the engine changes, with the statements that read and write it.
mod Schema
mod State
mod Replies
pub mod Reads
unfoldable pub use Schema.*
unfoldable pub use State.*
pub use Replies.*
