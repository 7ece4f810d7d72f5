-- ===== src/Bencode/Complete.antt =====
-- That the parser of src/bencode_parser.c accepts all of the format.
pub mod Cursor
pub mod Strings
pub mod Integers
pub mod Arrays
pub mod Heads
pub mod Lists
pub mod Dictionaries
pub mod Objects
