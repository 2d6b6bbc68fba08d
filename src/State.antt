-- ===== src/State.antt =====
-- The shared state of the control plane, apps/control-plane/src/state.rs.
pub mod Profiles
pub mod Settings
pub mod App
pub mod Sessions
pub mod Pipeline
pub mod Calls
