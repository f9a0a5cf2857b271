-- ===== src/Ledger.antt =====
-- ledger-service: the chaincode of the ledger, its client, and the HTTP routes.
pub mod Contract
pub mod Client
pub mod Routes
pub mod Env
pub mod Server
mod Tests
