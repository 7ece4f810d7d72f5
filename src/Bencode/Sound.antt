-- ===== src/Bencode/Sound.antt =====
-- That the parser of src/bencode_parser.c accepts nothing but the format, and stays in its input.
pub mod Cursor
pub mod Strings
pub mod Integers
pub mod Keys
pub mod Arrays
pub mod Lists
pub mod Dictionaries
pub mod Objects
pub mod Buffer
