-- ===== src/Decoder.antt =====
-- Trunk Recorder's status events become calls: apps/control-plane/src/decoder.rs.
pub mod Event
pub mod Convert
pub mod Apply
