-- ===== src/Store.antt =====
-- crates/opca-acme-broker/src/acme/store.rs.
pub mod Status
pub mod Moves
pub mod Tables
pub mod Lifecycle
pub mod Accounts
pub mod Settle
pub mod Orders
pub mod Certificates
pub mod Upkeep
pub mod Calls
pub mod Placing
pub mod Kept
pub mod Within
pub mod Lifecycles
pub mod Progress
pub mod Settled
pub mod Healthy
pub mod Revoked
pub mod Revoking
pub mod Restoring
