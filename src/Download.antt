-- ===== src/Download.antt =====
-- The download loop of `main`, src/main.c: pieces are asked for in order, checked, and written.
pub mod State
pub mod Round
pub mod Keeps
pub mod Loop
pub mod Invariant
pub mod Runs
pub mod Sockets
