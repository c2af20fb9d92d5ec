-- ===== src/Packets.antt =====
-- app/packets.py: the wire format of the osu! client's packets.
pub mod Bytes
pub mod Reader
pub mod MatchData
pub mod Writer
pub mod ScoreFrames
pub mod Frames
pub mod Lists
pub mod WriteMatch
pub mod Write
pub mod Server
pub mod Reads
pub mod Strings
pub mod Messages
pub mod Framing
pub mod Packet
pub mod MatchFields
pub mod MatchTrip
pub mod MatchAsserts
