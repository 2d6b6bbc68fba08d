-- ===== src/Tests.antt =====
-- Runs of the model on concrete states: sample data, and the cases in which each theorem applies.
pub mod Samples
pub mod State
pub mod Decoder
pub mod Api
pub mod Radio
pub mod Imports
pub mod Handlers
pub mod Workers
pub mod Start
pub mod Calls
