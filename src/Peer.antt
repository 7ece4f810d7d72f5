-- ===== src/Peer.antt =====
-- The peer wire protocol, src/peer_connection.c.
pub mod Connect
pub mod Types
pub mod Wire
pub mod Bitfield
pub mod Pieces
pub mod Receive
pub mod Runs
pub mod Send
