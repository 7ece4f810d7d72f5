-- ===== src/Tracker/Runs.antt =====
-- A small answer of a tracker and a small request, and what the theorems say of them.
use loco.Base.{
  ℕ, ◌+◌, ◌≡◌, ◌↔◌, refl, ◌⊎◌, inl, pos, true, Option, none, some, List, [], ◌∷◌, ◌++◌, Bytes,
  arith, codes, same_bytes, length, replicate, if◌then◌else◌,
}
use loco.Bencode.Types.{
  Segment, DataType, Object, Objects, Entries, object, integer, byte_string, list, dictionary,
  no_items, item, entry, no_entries, value, type_of, count_entries, count_items,
}
use loco.Bencode.Action.{ok}
use loco.Bencode.Cursor.{
  consume_current_byte, bytes_exist_from_current_parser_position, read_bencode_string,
  is_valid_parser, bencode_parser_init,
}
use loco.Bencode.Strings.{determine_byte_string_length, string_length_loop, parse_bencode_string}
use loco.Bencode.Integers.{magnitude_loop, parse_bencode_integer}
use loco.Bencode.Containers.{
  store_entry, store_item, dict_loop, list_loop, parse_bencode_dict, parse_bencode_list,
}
use loco.Bencode.Grammar.{Encodes}
use loco.Bencode.Parser.{parse_object, parse_bencode_buffer}
use loco.Metadata.{find_loop, find_entry_in_dictionary}
use loco.Metadata.Lookup.{IsEntry}
use loco.Tracker.Peers.{
  Peer, peers_extract_compact, peers_extract_list, read_entry, entries_loop, items_loop,
}
use loco.Tracker.Peers.Compact.{AllPeers, peers_bytes, peers_extract_compact_iff}
use loco.Tracker.Peers.Listed.{peers_of, peers_extract_list_lem}
use loco.Tracker.Response.{
  find_response_entry, find_peers, peers_key, tracker_response_parse, extract_peers,
}
use loco.Tracker.Response.Laws.{
  buffer_of, tracker_response_parse_iff, find_peers_iff, extract_peers-response,
}
use loco.Tracker.Url.{
  TrackerEvent, TrackerRequest, digits, print_unsigned, safely_increased_url_length, increase_all,
  add_query_parameter_to_url, add_all,
}
use loco.Tracker.Url.Write.{write_url, build_tracker_url}
use loco.Resources.{◌>>=◌, acquire_or_exit, unless_exit, or_exit, releasing}
use loco.Tracker.Url.Build.{announce_url, build_tracker_url_lem}

abbrev two_peers : List Peer
two_peers =
    record { ipv4_address = 1 ∷ 2 ∷ 3 ∷ 4 ∷ []; port = 6881 }
    ∷ record { ipv4_address = 9 ∷ 8 ∷ 7 ∷ 6 ∷ []; port = 80 }
    ∷ []

abbrev compact_text : Bytes
compact_text = 1 ∷ 2 ∷ 3 ∷ 4 ∷ 26 ∷ 225 ∷ 9 ∷ 8 ∷ 7 ∷ 6 ∷ 0 ∷ 80 ∷ []

peers_extract_compact_iff_example :
    (peers_extract_compact true compact_text ≡ some two_peers)
    ↔ ((compact_text ≡ peers_bytes two_peers) × AllPeers two_peers)
peers_extract_compact_iff_example =
    peers_extract_compact_iff compact_text two_peers (ground arith) (omega arith)

-- One address is known.
abbrev inet_pton : Bytes → Option Bytes
inet_pton s = if same_bytes s (codes "1.2.3.4") then some (1 ∷ 2 ∷ 3 ∷ 4 ∷ []) else none

abbrev peer_entries : Entries
peer_entries =
    entry (codes "ip") (object (byte_string (codes "1.2.3.4")) 14 9)
      (entry (codes "port") (object (integer (pos 80)) 29 4) no_entries)

abbrev peer_items : Objects
peer_items = item (object (dictionary peer_entries 2 2) 9 25) no_items

abbrev peers_object : Object
peers_object = object (list peer_items 1 1) 8 27

abbrev answer_entries : Entries
answer_entries = entry (codes "peers") peers_object no_entries

abbrev answer : Object
answer = object (dictionary answer_entries 1 1) 0 36

abbrev answer_text : Bytes
answer_text = codes "d5:peersld2:ip7:1.2.3.44:porti80eeee"

answer_run : tracker_response_parse (λ _ _. true) (buffer_of answer_text) ≡ ok answer
unfolding tracker_response_parse bencode_parser_init is_valid_parser parse_object
    parse_bencode_buffer consume_current_byte bytes_exist_from_current_parser_position
    read_bencode_string determine_byte_string_length string_length_loop parse_bencode_string
    magnitude_loop parse_bencode_integer store_entry store_item dict_loop list_loop
    parse_bencode_dict parse_bencode_list value
answer_run = refl

peers_run : find_peers answer ≡ some peers_object
unfolding find_peers find_response_entry find_entry_in_dictionary find_loop value
peers_run = refl

list_run :
    peers_extract_list inet_pton true 1 peer_items
    ≡ some (record { ipv4_address = 1 ∷ 2 ∷ 3 ∷ 4 ∷ []; port = 80 } ∷ [])
unfolding peers_extract_list items_loop entries_loop read_entry value
list_run = refl

peers_extract_list_lem_example :
    peers_extract_list inet_pton true (count_items peer_items) peer_items
    ≡ some (peers_of inet_pton peer_items)
unfolding value
peers_extract_list_lem_example =
    peers_extract_list_lem inet_pton peer_items (((inl (omega arith), tt), refl), tt) (omega arith)

tracker_response_parse_iff_example :
    (tracker_response_parse (λ _ _. true) (buffer_of answer_text) ≡ ok answer)
    ↔ (Encodes answer 0 answer_text × (type_of (value answer) ≡ DataType.dictionary))
tracker_response_parse_iff_example =
    tracker_response_parse_iff (λ _ _. true) answer_text answer (λ _ _. refl) (omega arith)

find_peers_iff_example :
    (find_peers (object (dictionary answer_entries (count_entries answer_entries) 1) 0 36)
      ≡ some peers_object)
    ↔ (IsEntry answer_entries peers_key peers_object
        × ((type_of (value peers_object) ≡ DataType.byte_string)
            ⊎ (type_of (value peers_object) ≡ DataType.list)))
find_peers_iff_example = find_peers_iff answer_entries 1 0 36 peers_object tt

extract_peers-response_example :
    extract_peers inet_pton true peers_object ≡ some (peers_of inet_pton peer_items)
unfolding value
extract_peers-response_example =
    extract_peers-response inet_pton (λ _ _. true) answer_text answer peers_object peer_items 1 1
      answer_run peers_run refl (omega arith)

abbrev pub request : TrackerRequest
request = record {
  info_hash = replicate 20 b'h';
  peer_id = replicate 20 b'p';
  port = 6881;
  uploaded = 0;
  downloaded = 0;
  left = 1024;
  compact = true;
  event = TrackerEvent.started;
}

abbrev pub address : Segment
address = codes "http://t/a"

-- A block of any size, of zeros.
abbrev pub some_block : ℕ → Option Bytes
some_block n = some (replicate n 0)

abbrev pub request_url : Bytes
request_url =
    codes
      "http://t/a?info_hash=hhhhhhhhhhhhhhhhhhhh&peer_id=pppppppppppppppppppp&port=6881&uploaded=0&downloaded=0&left=1024&compact=1&event=started"

abbrev expected_url : Bytes
expected_url = announce_url address request (replicate 20 b'h') (replicate 20 b'p')

url_run : expected_url ≡ request_url
unfolding digits
url_run = refl

pub build_run :
    (build_tracker_url some_block some true address request).0 ≡ some (request_url ++ 0 ∷ [])
unfolding build_tracker_url write_url print_unsigned digits increase_all safely_increased_url_length
    ◌>>=◌ acquire_or_exit unless_exit or_exit releasing add_all add_query_parameter_to_url
build_run = refl

build_tracker_url_lem_example :
    (build_tracker_url some_block some true address request).0 ≡ some (expected_url ++ 0 ∷ [])
unfolding digits
build_tracker_url_lem_example =
    build_tracker_url_lem some_block some address request (replicate 20 b'h') (replicate 20 b'p')
      (replicate (length expected_url + 1) 0)
      (record {
        port = omega arith;
        uploaded = omega arith;
        downloaded = omega arith;
        left = omega arith;
      })
      (omega arith) refl refl tt (omega arith) refl refl
