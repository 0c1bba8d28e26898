-- ===== src/Directive.antt =====
-- src/directive.rs: the directives in the header of a script.
pub mod Text
pub mod Names
pub mod Parser
pub mod Scan
pub mod Valid
pub mod Derive
pub mod Kept
pub mod Left
pub mod Derived
