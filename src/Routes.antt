-- ===== src/Routes.antt =====
-- backend/app/routers: the handlers of the API, each with the member and the household that the
-- dependencies of backend/app/auth/dependencies.py have found.
pub mod Tasks
pub mod Approvals
pub mod Wallet
pub mod Household
pub mod Access
pub mod Auth
pub mod Definitions
pub mod Series
pub mod Reports
