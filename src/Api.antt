-- ===== src/Api.antt =====
-- The HTTP interface, apps/control-plane/src/api.rs.
pub mod ShortName
pub mod Range
pub mod Audio
pub mod Policy
pub mod Tuning
pub mod ScanLists
pub mod Talkgroups
pub mod Systems
pub mod Receivers
pub mod Purge
pub mod Corrections
pub mod Tasks
pub mod Wav
pub mod Listening
pub mod Sites
pub mod Config
pub mod Operations
