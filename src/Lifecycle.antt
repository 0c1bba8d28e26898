-- ===== src/Lifecycle.antt =====
-- The lifecycle events of a run, as src/events.rs writes and src/reconcile.rs reads them.
pub mod Json
pub mod Data
pub mod Healed
