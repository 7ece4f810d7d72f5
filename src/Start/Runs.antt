-- ===== src/Start/Runs.antt =====
-- A whole run of the program on small inputs, and what the theorems say of it.
use loco.Base.{
  ℕ, ◌<◌, ◌≡◌, refl, sym, ap, ◌∙◌, pos, true, Option, none, some, [], ◌∷◌, ◌++◌, Bytes, arith,
  codes, length, length-replicate, take, replicate,
}
use loco.Download.Runs.{hash, runs, torrent-IsConsistent, runs-AllRunsWhole}
use loco.Download.Invariant.{OnFile}
use loco.Files.{FileAnswers}
use loco.Bencode.Arrays.{new_capacity, reserve}
use loco.Bencode.Containers.{
  key_precedes, last_key, sorted_after, store_item, store_entry, list_loop, parse_bencode_list,
  dict_loop, parse_bencode_dict,
}
use loco.Bencode.Cursor.{
  is_valid_parser, bencode_parser_init, byte_exists_at_position, peek_current_byte,
  consume_current_byte, get_available_byte_count, bytes_exist_from_current_parser_position,
  read_bencode_string,
}
use loco.Bencode.Integers.{
  integer_value, would_overflow, read_sign, magnitude_loop, parse_bencode_integer,
}
use loco.Bencode.Parser.{parse_value, parse_object, parse_bencode_buffer}
use loco.Bencode.Strings.{
  determine_bencode_data_type, string_length_loop, determine_byte_string_length,
  parse_bencode_string,
}
use loco.Bencode.Types.{value, start_offset, encoded_length}
use loco.Download.Loop.{first_piece_size, start_session, peer_loop, try_peer, download}
use loco.Download.Round.{
  handle_message, next_piece_size, advance_piece, write_piece, finish_piece, send_request,
  request_block, round,
}
use loco.Files.{get_file_size, read_byte_buffer_from_file}
use loco.Identity.{compute_info_hash, generate_peer_id}
use loco.Metadata.{
  find_loop, find_entry_in_dictionary, torrent_metadata_find_info, torrent_metadata_find_announce,
  torrent_metadata_find_name, torrent_metadata_find_length, torrent_metadata_find_piece_length,
  torrent_metadata_find_pieces, info_of, torrent_metadata_extract_info, torrent_metadata_extract,
}
use loco.Peer.Bitfield.{
  set_piece, has_piece, current_bitfield, update_bitfield, padding_clear, bitfield_applied,
}
use loco.Peer.Pieces.{
  determine_piece_info_from_piece_payload, block_accepted, process_incoming_piece_message,
}
use loco.Peer.Types.{free_peer_wire_message, reset_piece_state}
use loco.Resources.{
  acquiring, or_release, acquire_all_or_exit, ◌>>=◌, or_exit, acquire_or_exit, unless_exit,
  releasing,
}
use loco.Start.Results.{IsOf, read_document_lem, main-OnFile}
use loco.Download.State.{piece_count, Session}
use loco.Start.{System, Document, torrent_of, cli_arguments_valid, read_document}
use loco.Start.Main.{announce_to_tracker, take_peers, download_from, main, exit_code}
use loco.Tracker.Announce.{
  write_chunk_to_tracker_response_buffer, deliver, perform, tracker_announce,
}
use loco.Tracker.Peers.{
  parse_peer_from_segment, is_valid_peers_ipv4_list, compact_loop, peers_extract_compact,
  read_entry, entries_loop, items_loop, peers_extract_list,
}
use loco.Tracker.Response.{
  find_response_entry, find_interval, find_peers, tracker_response_parse, extract_peers,
}
use loco.Tracker.Url.{
  digits, print_unsigned, safely_increased_url_length, increase_all, add_query_parameter_to_url,
  add_all,
}
use loco.Tracker.Url.Write.{write_url, build_tracker_url}

abbrev torrent_text : Bytes
torrent_text =
    codes "d8:announce8:http://t4:infod6:lengthi3e4:name1:n12:piece lengthi2e6:pieces40:"
    ++ (replicate 40 3 ++ codes "ee")

-- Three peers.
abbrev answer_text : Bytes
answer_text = codes "d8:intervali9e5:peers18:" ++ (replicate 18 1 ++ codes "e")

abbrev file : FileAnswers
file = record {
  opened = true;
  end_found = true;
  position = pos (length torrent_text);
  start_found = true;
  granted = true;
  content = torrent_text;
}

abbrev bytes_of : Option Bytes → Bytes
bytes_of none = []
bytes_of (some bs) = bs

abbrev pub system : System
system = record {
  argv = codes "loco" ∷ codes "t.torrent" ∷ [];
  torrent_file = λ path. file;
  document_memory = λ _ _. true;
  response_memory = λ _ _. true;
  digest = record {
    context = true;
    initialised = true;
    updated = true;
    final = λ bs. some (hash bs);
  };
  rand_bytes = λ n. some (replicate n 7);
  malloc = λ n. some (replicate n 0);
  realloc = λ old n. some (take n (bytes_of old ++ replicate n 0));
  curl = record {
    curl = true;
    write_function = true;
    write_data = true;
    url_curl = true;
    curl_easy_escape = some;
    set_url = λ url. true;
    curl_easy_perform = λ url. record {
      chunks = answer_text ∷ [];
      performed = true;
      info = true;
      status_code = 200;
    };
  };
  inet_pton = λ s. none;
  peers_granted = true;
  output_opened = λ path. true;
  sha1 = hash;
  peer_runs = λ ps. runs;
}

exit_run : exit_code system ≡ pos 0
unfolding compute_info_hash generate_peer_id ◌>>=◌ or_exit acquire_or_exit unless_exit releasing
    acquiring get_file_size read_byte_buffer_from_file cli_arguments_valid or_release
    acquire_all_or_exit read_document find_loop find_entry_in_dictionary torrent_metadata_find_info
    torrent_metadata_find_announce torrent_metadata_find_name torrent_metadata_find_length
    torrent_metadata_find_piece_length torrent_metadata_find_pieces info_of
    torrent_metadata_extract_info torrent_metadata_extract determine_piece_info_from_piece_payload
    block_accepted process_incoming_piece_message free_peer_wire_message reset_piece_state set_piece
    has_piece current_bitfield update_bitfield padding_clear bitfield_applied first_piece_size
    start_session peer_loop try_peer download handle_message next_piece_size advance_piece
    write_piece finish_piece send_request request_block round new_capacity reserve is_valid_parser
    bencode_parser_init byte_exists_at_position peek_current_byte consume_current_byte
    get_available_byte_count bytes_exist_from_current_parser_position read_bencode_string value
    start_offset encoded_length parse_value parse_object parse_bencode_buffer key_precedes last_key
    sorted_after store_item store_entry list_loop parse_bencode_list dict_loop parse_bencode_dict
    integer_value would_overflow read_sign magnitude_loop parse_bencode_integer
    determine_bencode_data_type string_length_loop determine_byte_string_length parse_bencode_string
    announce_to_tracker take_peers download_from main exit_code
    write_chunk_to_tracker_response_buffer deliver perform tracker_announce find_response_entry
    find_interval find_peers tracker_response_parse extract_peers digits print_unsigned
    safely_increased_url_length increase_all add_query_parameter_to_url add_all write_url
    build_tracker_url parse_peer_from_segment is_valid_peers_ipv4_list compact_loop
    peers_extract_compact read_entry entries_loop items_loop peers_extract_list
exit_run = refl

-- The info dictionary.
abbrev info_text : Bytes
info_text =
    codes "d6:lengthi3e4:name1:n12:piece lengthi2e6:pieces40:" ++ (replicate 40 3 ++ codes "e")

abbrev pub document : Document
document = record {
  metadata = record {
    announce = codes "http://t";
    info = record {
      name = codes "n";
      length = pos 3;
      piece_length = pos 2;
      pieces = replicate 40 3;
      info_span = record { start_offset = 27; length = length info_text };
    };
  };
  info_bytes = info_text;
}

pub document_run : (read_document system).0 ≡ some document
unfolding compute_info_hash generate_peer_id ◌>>=◌ or_exit acquire_or_exit unless_exit releasing
    acquiring get_file_size read_byte_buffer_from_file cli_arguments_valid or_release
    acquire_all_or_exit read_document find_loop find_entry_in_dictionary torrent_metadata_find_info
    torrent_metadata_find_announce torrent_metadata_find_name torrent_metadata_find_length
    torrent_metadata_find_piece_length torrent_metadata_find_pieces info_of
    torrent_metadata_extract_info torrent_metadata_extract determine_piece_info_from_piece_payload
    block_accepted process_incoming_piece_message free_peer_wire_message reset_piece_state set_piece
    has_piece current_bitfield update_bitfield padding_clear bitfield_applied first_piece_size
    start_session peer_loop try_peer download handle_message next_piece_size advance_piece
    write_piece finish_piece send_request request_block round new_capacity reserve is_valid_parser
    bencode_parser_init byte_exists_at_position peek_current_byte consume_current_byte
    get_available_byte_count bytes_exist_from_current_parser_position read_bencode_string value
    start_offset encoded_length parse_value parse_object parse_bencode_buffer key_precedes last_key
    sorted_after store_item store_entry list_loop parse_bencode_list dict_loop parse_bencode_dict
    integer_value would_overflow read_sign magnitude_loop parse_bencode_integer
    determine_bencode_data_type string_length_loop determine_byte_string_length parse_bencode_string
    announce_to_tracker take_peers download_from main exit_code
    write_chunk_to_tracker_response_buffer deliver perform tracker_announce find_response_entry
    find_interval find_peers tracker_response_parse extract_peers digits print_unsigned
    safely_increased_url_length increase_all add_query_parameter_to_url add_all write_url
    build_tracker_url parse_peer_from_segment is_valid_peers_ipv4_list compact_loop
    peers_extract_compact read_entry entries_loop items_loop peers_extract_list
document_run = refl

-- With no argument.
usage_run : exit_code (record system { argv = [] }) ≡ pos 1
unfolding exit_code main read_document cli_arguments_valid ◌>>=◌ or_exit
usage_run = refl

read_document_lem_example : IsOf system document
read_document_lem_example = read_document_lem system document document_run

pub granted_size : (n : ℕ) (block : Bytes) → some (replicate n 0) ≡ some block → length block ≡ n
granted_size n block e =
    let same : replicate n 0 ≡ block = ground (arith, e) in
    ap length (sym same) ∙ length-replicate n 0

main-OnFile_example :
    (s : Session) × ((main system).0 ≡ some s)
    × ((i : ℕ)
        → i < piece_count (torrent_of document.metadata.info)
        → OnFile hash (torrent_of document.metadata.info) s.file i)
main-OnFile_example =
    main-OnFile system document granted_size document_run torrent-IsConsistent
      (λ ps. runs-AllRunsWhole) exit_run
