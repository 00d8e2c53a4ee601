-- ===== src/Life.antt =====
-- The life of a task over requests: what every state of the database keeps, whatever is asked of it.
pub mod Frame
pub mod Steps
pub mod Series
pub mod Requests
pub mod Routes
pub mod Wallet
pub mod Batch
pub mod History
pub mod Sweep
