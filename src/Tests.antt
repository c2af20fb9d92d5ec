-- ===== src/Tests.antt =====
-- Concrete runs at which the theorems' hypotheses hold.
pub mod Samples
pub mod Rooms
pub mod Wire
pub mod Rules
pub mod Online
pub mod Replays
pub mod Reviews
pub mod Groups
pub mod Friends
