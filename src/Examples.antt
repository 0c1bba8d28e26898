-- ===== src/Examples.antt =====
-- Each theorem at a concrete input, and runs of the code that can be followed in the source.
mod Lifecycle
mod Control
mod Protocol
mod Recorders
mod Recordings
mod Keystrokes
mod Inputs
mod Reconciling
mod Scripts
