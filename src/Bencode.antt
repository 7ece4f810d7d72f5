-- ===== src/Bencode.antt =====
-- The bencode parser, src/bencode_parser.c.
pub mod Types
pub mod Action
pub mod Cursor
pub mod Strings
pub mod Integers
pub mod Arrays
pub mod Containers
pub mod Parser
pub mod Runs
pub mod Ensures
pub mod Grammar
pub mod Sound
pub mod Complete
