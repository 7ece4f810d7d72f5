-- ===== src/Tracker.antt =====
-- src/tracker.c: the announce to the tracker, and its answer.
pub mod Announce
pub mod Peers
pub mod Response
pub mod Runs
pub mod Url
