-- ===== src/Replay.antt =====
-- app/adapters/osr_replay.py, the decoder of .osr files, and the full replays that
-- app/services/replays.py builds. `data` and the position in it are explicit.
pub mod Reader
pub mod Numbers
pub mod Frames
pub mod Parse
pub mod Errors
pub mod Tokens
pub mod Decimal
pub mod Build
pub mod Reads
pub mod Strings
pub mod RoundTrip
