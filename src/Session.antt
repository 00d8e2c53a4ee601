-- ===== src/Session.antt =====
-- backend/app/db/database.py: the database session that every request and worker runs in.
-- The tables are lists of rows, newest first. A query of the source reads `current`, since a session
-- flushes what is pending before it runs one; `committed` is what a rollback goes back to.
mod Monad
mod Tables
mod Rows
pub mod Reads
pub mod Binds
pub mod Request
unfoldable pub use Monad.*
unfoldable pub use Tables.*
unfoldable pub use Rows.*
