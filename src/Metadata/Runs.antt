-- ===== src/Metadata/Runs.antt =====
-- A small .torrent document, and what the theorems say of it.
use loco.Base.{
  ℕ, ◌≡◌, ◌↔◌, refl, inl, inr, pos, true, some, [], ◌∷◌, ◌++◌, Bytes, length, replicate, arith,
}
use loco.Bencode.Types.{
  Segment, DataType, Object, Entries, object, integer, byte_string, dictionary, entry, no_entries,
  value, type_of, start_offset, encoded_length, count_entries,
}
use loco.Bencode.Action.{ok}
use loco.Bencode.Cursor.{
  ParserState, consume_current_byte, bytes_exist_from_current_parser_position, read_bencode_string,
}
use loco.Bencode.Strings.{determine_byte_string_length, string_length_loop, parse_bencode_string}
use loco.Bencode.Integers.{magnitude_loop, parse_bencode_integer}
use loco.Bencode.Containers.{store_entry, dict_loop, parse_bencode_dict}
use loco.Bencode.Parser.{parse_object, parse_bencode_buffer}
use loco.Metadata.{
  find_loop, find_entry_in_dictionary, length_key, torrent_metadata_find_info,
  torrent_metadata_find_announce, torrent_metadata_find_name, torrent_metadata_find_length,
  torrent_metadata_find_piece_length, torrent_metadata_find_pieces, TorrentMetadata, info_of,
  torrent_metadata_extract_info, torrent_metadata_extract,
}
use loco.Metadata.Lookup.{IsEntry, find_entry_in_dictionary_iff}
use loco.Metadata.Laws.{FromDocument, torrent_metadata_extract_lem}

-- The hash of the one piece.
abbrev hashes : Segment
hashes = replicate 20 b'h'

abbrev text : Bytes
text =
    (b'd' ∷ b'8' ∷ b':' ∷ b'a' ∷ b'n' ∷ b'n' ∷ b'o' ∷ b'u' ∷ b'n' ∷ b'c' ∷ b'e' ∷ b'3' ∷ b':' ∷ b't'
      ∷ b':' ∷ b'1' ∷ b'4' ∷ b':' ∷ b'i' ∷ b'n' ∷ b'f' ∷ b'o' ∷ b'd' ∷ b'6' ∷ b':' ∷ b'l' ∷ b'e'
      ∷ b'n' ∷ b'g' ∷ b't' ∷ b'h' ∷ b'i' ∷ b'3' ∷ b'e' ∷ b'4' ∷ b':' ∷ b'n' ∷ b'a' ∷ b'm' ∷ b'e'
      ∷ b'1' ∷ b':' ∷ b'n' ∷ b'1' ∷ b'2' ∷ b':' ∷ b'p' ∷ b'i' ∷ b'e' ∷ b'c' ∷ b'e' ∷ b' ' ∷ b'l'
      ∷ b'e' ∷ b'n' ∷ b'g' ∷ b't' ∷ b'h' ∷ b'i' ∷ b'4' ∷ b'e' ∷ b'6' ∷ b':' ∷ b'p' ∷ b'i' ∷ b'e'
      ∷ b'c' ∷ b'e' ∷ b's' ∷ b'2' ∷ b'0' ∷ b':' ∷ [])
    ++ (hashes ++ b'e' ∷ b'e' ∷ [])

abbrev document : ParserState
document = record { input = record { bytes = text; length = length text }; position = 0 }

abbrev info_entries : Entries
info_entries =
    (entry (b'l' ∷ b'e' ∷ b'n' ∷ b'g' ∷ b't' ∷ b'h' ∷ []) (object (integer (pos 3)) 31 3) (
      entry (b'n' ∷ b'a' ∷ b'm' ∷ b'e' ∷ []) (object (byte_string (b'n' ∷ [])) 40 3) (
        entry
          (b'p' ∷ b'i' ∷ b'e' ∷ b'c' ∷ b'e' ∷ b' ' ∷ b'l' ∷ b'e' ∷ b'n' ∷ b'g' ∷ b't' ∷ b'h' ∷ [])
          (object (integer (pos 4)) 58 3)
          (entry (b'p' ∷ b'i' ∷ b'e' ∷ b'c' ∷ b'e' ∷ b's' ∷ []) (object (byte_string hashes) 69 23)
            no_entries))))

abbrev info_dict : Object
info_dict = object (dictionary info_entries 4 4) 22 71

abbrev root_entries : Entries
root_entries =
    (entry (b'a' ∷ b'n' ∷ b'n' ∷ b'o' ∷ b'u' ∷ b'n' ∷ b'c' ∷ b'e' ∷ [])
      (object (byte_string (b't' ∷ b':' ∷ b'1' ∷ [])) 11 5)
      (entry (b'i' ∷ b'n' ∷ b'f' ∷ b'o' ∷ []) info_dict no_entries))

abbrev root : Object
root = object (dictionary root_entries 2 2) 0 94

abbrev metadata : TorrentMetadata
metadata = record {
  announce = (b't' ∷ b':' ∷ b'1' ∷ []);
  info = record {
    name = b'n' ∷ [];
    length = pos 3;
    piece_length = pos 4;
    pieces = hashes;
    info_span = record { start_offset = 22; length = 71 };
  };
}

document_run :
    parse_bencode_buffer (λ _ _. true) document ≡ (ok root, record document { position = 94 })
unfolding parse_object parse_bencode_buffer consume_current_byte
    bytes_exist_from_current_parser_position read_bencode_string determine_byte_string_length
    string_length_loop parse_bencode_string magnitude_loop parse_bencode_integer store_entry
    dict_loop parse_bencode_dict
document_run = refl

metadata_run : torrent_metadata_extract root ≡ some metadata
unfolding torrent_metadata_extract torrent_metadata_extract_info info_of torrent_metadata_find_info
    torrent_metadata_find_announce torrent_metadata_find_name torrent_metadata_find_length
    torrent_metadata_find_piece_length torrent_metadata_find_pieces find_entry_in_dictionary
    find_loop value start_offset encoded_length
metadata_run = refl

torrent_metadata_extract_lem_example :
    (es : Entries) × (n : ℕ) × (c : ℕ) × (value root ≡ dictionary es n c)
    × FromDocument document.input es metadata
torrent_metadata_extract_lem_example =
    torrent_metadata_extract_lem (λ _ _. true) document (record document { position = 94 }) root
      metadata (omega arith) document_run metadata_run

find_entry_in_dictionary_iff_example :
    (find_entry_in_dictionary
        (object (dictionary info_entries (count_entries info_entries) 4) 22 71)
        length_key
        DataType.integer
      ≡ some (object (integer (pos 3)) 31 3))
    ↔ (IsEntry info_entries length_key (object (integer (pos 3)) 31 3)
        × (type_of (value (object (integer (pos 3)) 31 3)) ≡ DataType.integer))
find_entry_in_dictionary_iff_example =
    find_entry_in_dictionary_iff info_entries 4 22 71 length_key DataType.integer
      (object (integer (pos 3)) 31 3)
      (
        inl (omega arith),
        (
          inl (omega arith),
          (inr (refl, inr (refl, inr (refl, inr (refl, inr (refl, inl (omega arith)))))), tt),
        ),
      )
