-- ===== src/Tracker/Response.antt =====
-- src/tracker.c: the tracker's answer; src/main.c: which form its peers have.
pub mod Laws
use loco.Base.{
  ℕ, ℤ, Bool, true, false, Option, none, some, List, [], ◌∷◌, Bytes, ◌==◌, if◌then◌else◌,
}
use loco.Bencode.Types.{
  Segment, DataType, Object, Value, integer, byte_string, list, dictionary, value, type_of,
}
use loco.Bencode.Action.{Outcome, ok, failed, out_of_fuel}
use loco.Bencode.Arrays.{Allocator}
use loco.Bencode.Cursor.{ParserState, bencode_parser_init}
use loco.Bencode.Parser.{parse_bencode_buffer}
use loco.Metadata.{same_type, integer_of, find_entry_in_dictionary}
use loco.Tracker.Peers.{Peer, peers_extract_compact, peers_extract_list}

-- `tracker_response_buffer_t`; a null `data` is none.
pub record ResponseBuffer : Type 0 where
  pub bytes : Option Bytes
  pub length : ℕ

abbrev pub interval_key : Segment
interval_key = b'i' ∷ b'n' ∷ b't' ∷ b'e' ∷ b'r' ∷ b'v' ∷ b'a' ∷ b'l' ∷ []

abbrev pub peers_key : Segment
peers_key = b'p' ∷ b'e' ∷ b'e' ∷ b'r' ∷ b's' ∷ []

-- The file's own `find_entry_in_dictionary`, which is that of src/torrent_metadata.c to the letter.
unfoldable pub find_response_entry : Object → Segment → DataType → Option Object
unfolding find_entry_in_dictionary
find_response_entry root key_name target_type = find_entry_in_dictionary root key_name target_type

abbrev integer_in : Option Object → Option ℤ
integer_in none = none
integer_in (some x) = some (integer_of (value x))

unfoldable pub find_interval : Object → Option ℤ
unfolding find_response_entry
find_interval response = integer_in (find_response_entry response interval_key DataType.integer)

abbrev first_of : Option Object → Option Object → Option Object
first_of none b = b
first_of (some x) b = some x

-- The compact form is looked for first.
unfoldable pub find_peers : Object → Option Object
unfolding find_response_entry
find_peers response =
    first_of (find_response_entry response peers_key DataType.byte_string)
      (find_response_entry response peers_key DataType.list)

-- The document must fill the buffer, and be a dictionary.
abbrev whole_dictionary : ℕ → Outcome Object × ParserState → Outcome Object
whole_dictionary n (ok x, s) =
    if s.position == n
    then (if same_type (type_of (value x)) DataType.dictionary then ok x else failed)
    else failed
whole_dictionary n (failed, s) = failed
whole_dictionary n (out_of_fuel, s) = out_of_fuel

abbrev parse_whole : Allocator → ℕ → Option ParserState → Outcome Object
parse_whole realloc n none = failed
parse_whole realloc n (some s) = whole_dictionary n (parse_bencode_buffer realloc s)

unfoldable pub tracker_response_parse : Allocator → ResponseBuffer → Outcome Object
tracker_response_parse realloc response =
    parse_whole realloc response.length (bencode_parser_init response.bytes response.length)

-- The two forms of `peers_object`, in `main`; `granted` is whether malloc gives the memory.
abbrev pub extract_by_type : (Bytes → Option Bytes) → Bool → Value → Option (List Peer)
extract_by_type inet_pton granted (byte_string s) = peers_extract_compact granted s
extract_by_type inet_pton granted (list xs n c) = peers_extract_list inet_pton granted n xs
extract_by_type inet_pton granted _ = none

unfoldable pub extract_peers : (Bytes → Option Bytes) → Bool → Object → Option (List Peer)
extract_peers inet_pton granted peers_object =
    extract_by_type inet_pton granted (value peers_object)
