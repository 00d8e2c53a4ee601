-- ===== src/Schemas.antt =====
-- backend/app/schemas/schemas.py: the requests that the routes take and the responses that they give.
mod Tasks
mod Wallet
mod Members
mod Plans
pub mod Checks
pub mod Responses
pub use Tasks.*
pub use Wallet.*
pub use Members.*
pub use Plans.*
