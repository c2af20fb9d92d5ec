-- ===== src/Anticheat.antt =====
-- The replay-analysis worker: app/services/anticheat/worker.py, replay_analysis.py, flag_review.py and
-- flag_review_queue.py, with what they read and write of the queue and the tables.
pub mod Queue
pub mod Analysis
pub mod Worker
pub mod Pages
pub mod Backfill
pub mod Consume
pub mod Liveness
pub mod Flags
pub mod Review
pub mod Raises
