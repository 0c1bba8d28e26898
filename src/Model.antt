-- ===== src/Model.antt =====
-- The domain model of src/model: identities, launch specification, run status, provenance, the
-- persisted session metadata and its lifecycle transitions.
pub mod Ids
pub mod Generation
pub mod Boundary
pub mod Spec
pub mod Status
pub mod Provenance
pub mod Pty
pub mod Meta
pub mod Transition
pub mod PtyControl
