-- ===== src/Reconcile.antt =====
-- src/reconcile.rs: what a command does about a session whose sidecar is gone.
pub mod World
pub mod Orphans
pub mod Gone
pub mod Paths
pub mod Safe
pub mod Settled
pub mod Found
pub mod Recovery
