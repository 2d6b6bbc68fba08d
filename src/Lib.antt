-- ===== src/Lib.antt =====
-- TrunkScope's control plane, and what is proved of it.
--
-- The control plane (apps/control-plane) receives radio calls from a trunking decoder, keeps the recent
-- ones in memory and in SQLite, groups them into conversation sessions, hands each finished call to an
-- AI pipeline once, steers the receivers and serves an HTTP interface. Decoder events come in by a web
-- socket and by files; both end in AppState, which the handlers, the scanner and the retention worker
-- read and write under locks.
--
-- Files, by the code that they model:
--   Domain: crates/domain/src/lib.rs, the types; Domain/Policy: the publication policy's operations.
--   State: apps/control-plane/src/state.rs. State/Profiles and State/Settings have the records,
--     State/App the record AppState with what leaves the process as lists (events, statements of
--     sqlite.rs, commands of persistence.rs, documents), State/Calls the writes to the calls (with
--     hydrate of sqlite.rs), State/Sessions the conversation sessions, State/Pipeline the configuration
--     generation, the table of recordings and the AI queue.
--   Decoder: apps/control-plane/src/decoder.rs. Decoder/Event has the events and their fields,
--     Decoder/Convert convert_call, Decoder/Apply apply_status, the stale sweep and the socket's loop.
--   Scanner: apps/control-plane/src/scanner.rs. One turn of the loop is scan_turn.
--   Api: apps/control-plane/src/api.rs, one file for each group of handlers or helpers: ShortName,
--     Range, Audio, Purge, Policy, Tuning, ScanLists, Talkgroups, Systems, Receivers, Corrections (the
--     operator's), Tasks (of the AI), Wav (merged recordings), Listening, Sites, Config (the decoder's
--     configuration and tables), Operations (the summary and the questions).
--   Auth: apps/control-plane/src/auth.rs; its admin_accessible gives the handlers' first argument.
--   Imports: apps/control-plane/src/imports.rs. Imports has the reading of lines, Imports/Talkgroups,
--     Imports/Sites and Imports/Systems the three kinds of file.
--   Presets: apps/control-plane/src/receiver_presets.rs, with the table in Presets/Table.
--   Radio: apps/control-plane/src/radiod.rs. Radio has the configuration, and the daemon's events are in
--     Radio/Events; Radio/Supervisor has one turn of the loop that restarts the daemon.
--   Apply, Ingest: apps/control-plane/src/apply.rs and file_ingest.rs, one turn or round of each loop.
--   Processing: apps/control-plane/src/processor.rs, one turn of a worker.
--   Providers: apps/control-plane/src/providers.rs. Providers has what is read from a transcript,
--     Providers/Http the requests and their keys, Providers/Requests the transcription and the summary,
--     Providers/Catalog the lists of models, Providers/Geocode (+Within) the geocoder.
--   Enrichment: apps/control-plane/src/enrichment.rs, the prompts and the checks on answers, with the
--     batches in Enrichment/Batch.
--   Start: AppState::new of apps/control-plane/src/state.rs, with the settings of a first start in
--     Start/Defaults, their upgrade in Start/Migration, and the talkgroups of the decoder's file in
--     Start/Table.
--   Retention: apps/control-plane/src/retention.rs.
--   Common: what stands for the Rust library and chrono, serde_json, uuid: text, maps, paths, floats,
--     time and the stable sort. Tests: sample states and runs.
-- The theorems on a component stand in the modules below it.
--
-- Conventions. A handler is a function from the state, and from the time and the fresh identifiers
-- that it draws, to the state and its reply. Text is a list of code points, an f32 or f64 its bit
-- pattern, a moment the nanoseconds since the least one of chrono, an unsigned integer a natural
-- number with its bound where the code can reach it, a hash map an association list, a path its
-- components. A fresh identifier is an argument. Conversions between text, floats and moments that the
-- Rust library and chrono make are the fields of Decoder.Event.Conversions, a parameter. A lock is held
-- for one operation, so an operation is one step; where a worker waits between two operations, what the
-- other tasks do meanwhile is a parameter, and delete_system, which waits for a lock that it holds
-- itself, ends as blocked. All loops are structural recursions on the lists that they go through, so
-- no fuel is needed, but for the walk over a WAV file's chunks (Api/Wav): its fuel is the file's
-- length, which Api/Wav/Chunks shows to be enough. The endless loops (the scanner, the timers and the
-- supervisor) are modelled by one turn, and runs of them by a relation. Floating-point arithmetic and
-- parsing, the password hash and the tone checks on floats are parameters in the same way.
--
-- Not modelled: the HTTP layer (a handler's first argument is the result of its check), serialization,
-- SQL and the Postgres worker, logging, the moment at which the decoder's configuration is written
-- (its content is Api/Config), the projection of incidents, the previews of imports,
-- what the AI services do, the simulator, the entry point, and the handlers that probe, verify and
-- discover receivers. The web application and the native
-- decoder are other programs.
pub mod Common
pub mod Domain
pub mod Imports
pub mod Presets
pub mod State
pub mod Api
pub mod Auth
pub mod Decoder
pub mod Scanner
pub mod Providers
pub mod Processing
pub mod Enrichment
pub mod Start
pub mod Apply
pub mod Ingest
pub mod Radio
pub mod Retention
pub mod Tests
