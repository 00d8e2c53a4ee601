-- ===== src/Models.antt =====
-- backend/app/db/models.py: the enumerations, and a record for each mapped table.
mod Enums
mod Tables
pub use Enums.*
pub use Tables.*
