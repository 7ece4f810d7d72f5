-- ===== src/Start/Received/Runs.antt =====
-- The program with one peer, from the bytes of its socket, and what the theorem says of it.
use loco.Base.{
  ℕ, Bool, ltb, ◌&&◌, ◌<◌, ◌≡◌, refl, pos, true, some, [], ◌∷◌, ◌++◌, Bytes, AllBytes, arith,
  replicate,
}
use loco.Peer.Wire.{big_endian}
use loco.Peer.Wire.Laws.{handshake_head}
use loco.Peer.Connect.{connected}
use loco.Peer.Receive.{received}
use loco.Peer.Send.{accepted}
use loco.Download.State.{piece_count, Session}
use loco.Download.Invariant.{OnFile}
use loco.Download.Runs.{hash, torrent-IsConsistent, answers}
use loco.Download.Sockets.{Connection}
use loco.Start.Runs.{system, document, granted_size}
use loco.Start.Received.{main-received}
use loco.Bencode.Arrays.{new_capacity, reserve}
use loco.Bencode.Containers.{
  key_precedes, last_key, sorted_after, store_item, store_entry, list_loop, parse_bencode_list,
  dict_loop, parse_bencode_dict,
}
use loco.Bencode.Cursor.{
  is_valid_parser, bencode_parser_init, byte_exists_at_position, peek_current_byte,
  consume_current_byte, get_available_byte_count, bytes_exist_from_current_parser_position,
  read_bencode_string,
}
use loco.Bencode.Integers.{
  integer_value, would_overflow, read_sign, magnitude_loop, parse_bencode_integer,
}
use loco.Bencode.Parser.{parse_value, parse_object, parse_bencode_buffer}
use loco.Bencode.Strings.{
  determine_bencode_data_type, string_length_loop, determine_byte_string_length,
  parse_bencode_string,
}
use loco.Bencode.Types.{value, start_offset, encoded_length}
use loco.Download.Loop.{first_piece_size, start_session, peer_loop, try_peer, download}
use loco.Download.Round.{
  handle_message, next_piece_size, advance_piece, write_piece, finish_piece, send_request,
  request_block, round,
}
use loco.Download.Sockets.{messages_from, peer_run, peer_runs}
use loco.Files.{get_file_size, read_byte_buffer_from_file}
use loco.Identity.{compute_info_hash, generate_peer_id}
use loco.Metadata.{
  find_loop, find_entry_in_dictionary, torrent_metadata_find_info, torrent_metadata_find_announce,
  torrent_metadata_find_name, torrent_metadata_find_length, torrent_metadata_find_piece_length,
  torrent_metadata_find_pieces, info_of, torrent_metadata_extract_info, torrent_metadata_extract,
}
use loco.Peer.Bitfield.{
  set_piece, has_piece, current_bitfield, update_bitfield, padding_clear, bitfield_applied,
}
use loco.Peer.Connect.{await_connection, connect_to_peer}
use loco.Peer.Pieces.{
  determine_piece_info_from_piece_payload, block_accepted, process_incoming_piece_message,
}
use loco.Peer.Receive.{
  recv_loop, is_valid_payload_length_for_message, receive_payload, receive_body, is_cleared,
  receive_peer_wire_message,
}
use loco.Peer.Send.{send_loop, handshake_with_peer}
use loco.Peer.Types.{free_peer_wire_message, reset_piece_state}
use loco.Peer.Wire.{
  write_uint32_big_endian, append_uint32_big_endian, build_handshake, validate_handshake_response,
}
use loco.Resources.{
  acquiring, or_release, acquire_all_or_exit, ◌>>=◌, or_exit, acquire_or_exit, unless_exit,
  releasing,
}
use loco.Start.{System, torrent_of, cli_arguments_valid, read_document}
use loco.Start.Main.{announce_to_tracker, take_peers, download_from, main, exit_code}
use loco.Tracker.Announce.{
  write_chunk_to_tracker_response_buffer, deliver, perform, tracker_announce,
}
use loco.Tracker.Peers.{
  parse_peer_from_segment, is_valid_peers_ipv4_list, compact_loop, peers_extract_compact,
  read_entry, entries_loop, items_loop, peers_extract_list,
}
use loco.Tracker.Response.{
  find_response_entry, find_interval, find_peers, tracker_response_parse, extract_peers,
}
use loco.Tracker.Url.{
  digits, print_unsigned, safely_increased_url_length, increase_all, add_query_parameter_to_url,
  add_all,
}
use loco.Tracker.Url.Write.{write_url, build_tracker_url}

-- The handshake, a bitfield of both pieces, unchoke, and the two pieces.
abbrev incoming : Bytes
incoming =
    handshake_head
    ++ (replicate 20 5
        ++ (replicate 20 8
            ++ (big_endian 2
                ++ 5
                  ∷ 192
                  ∷ (big_endian 1
                      ++ 1
                        ∷ (big_endian 11
                            ++ 7
                              ∷ (big_endian 0
                                  ++ (big_endian 0
                                      ++ 1
                                        ∷ 2
                                        ∷ (big_endian 10
                                            ++ 7
                                              ∷ (big_endian 1 ++ (big_endian 0 ++ 3 ∷ []))))))))))

abbrev connection : Connection
connection = record {
  connect = record {
    socket = some 3;
    flags = some 2;
    nonblocking_set = true;
    connecting = λ a. connected;
    poll_result = pos 0;
    error_read = true;
    socket_error = 0;
    flags_set_back = true;
  };
  sending = accepted 40 ∷ accepted 40 ∷ [];
  socket = record { incoming = incoming; answers = replicate 90 (received 7) };
  rounds =
      (true, answers)
      ∷ (true, answers)
      ∷ (true, answers)
      ∷ (true, record answers { written_elements = 1 })
      ∷ [];
}

abbrev socket_system : System
socket_system = record system {
  peer_runs = peer_runs (replicate 20 5) (replicate 20 9) (connection ∷ []);
}

socket_run : exit_code socket_system ≡ pos 0
unfolding compute_info_hash generate_peer_id ◌>>=◌ or_exit acquire_or_exit unless_exit releasing
    acquiring get_file_size read_byte_buffer_from_file cli_arguments_valid or_release
    acquire_all_or_exit read_document find_loop find_entry_in_dictionary torrent_metadata_find_info
    torrent_metadata_find_announce torrent_metadata_find_name torrent_metadata_find_length
    torrent_metadata_find_piece_length torrent_metadata_find_pieces info_of
    torrent_metadata_extract_info torrent_metadata_extract determine_piece_info_from_piece_payload
    block_accepted process_incoming_piece_message recv_loop is_valid_payload_length_for_message
    receive_payload receive_body is_cleared receive_peer_wire_message await_connection
    connect_to_peer write_uint32_big_endian append_uint32_big_endian build_handshake
    validate_handshake_response free_peer_wire_message reset_piece_state send_loop
    handshake_with_peer set_piece has_piece current_bitfield update_bitfield padding_clear
    bitfield_applied messages_from peer_run peer_runs first_piece_size start_session peer_loop
    try_peer download handle_message next_piece_size advance_piece write_piece finish_piece
    send_request request_block round new_capacity reserve is_valid_parser bencode_parser_init
    byte_exists_at_position peek_current_byte consume_current_byte get_available_byte_count
    bytes_exist_from_current_parser_position read_bencode_string value start_offset encoded_length
    parse_value parse_object parse_bencode_buffer key_precedes last_key sorted_after store_item
    store_entry list_loop parse_bencode_list dict_loop parse_bencode_dict integer_value
    would_overflow read_sign magnitude_loop parse_bencode_integer determine_bencode_data_type
    string_length_loop determine_byte_string_length parse_bencode_string announce_to_tracker
    take_peers download_from main exit_code write_chunk_to_tracker_response_buffer deliver perform
    tracker_announce find_response_entry find_interval find_peers tracker_response_parse
    extract_peers digits print_unsigned safely_increased_url_length increase_all
    add_query_parameter_to_url add_all write_url build_tracker_url parse_peer_from_segment
    is_valid_peers_ipv4_list compact_loop peers_extract_compact read_entry entries_loop items_loop
    peers_extract_list
socket_run = refl

read_run : (read_document socket_system).0 ≡ some document
unfolding compute_info_hash generate_peer_id ◌>>=◌ or_exit acquire_or_exit unless_exit releasing
    acquiring get_file_size read_byte_buffer_from_file cli_arguments_valid or_release
    acquire_all_or_exit read_document find_loop find_entry_in_dictionary torrent_metadata_find_info
    torrent_metadata_find_announce torrent_metadata_find_name torrent_metadata_find_length
    torrent_metadata_find_piece_length torrent_metadata_find_pieces info_of
    torrent_metadata_extract_info torrent_metadata_extract determine_piece_info_from_piece_payload
    block_accepted process_incoming_piece_message recv_loop is_valid_payload_length_for_message
    receive_payload receive_body is_cleared receive_peer_wire_message await_connection
    connect_to_peer write_uint32_big_endian append_uint32_big_endian build_handshake
    validate_handshake_response free_peer_wire_message reset_piece_state send_loop
    handshake_with_peer set_piece has_piece current_bitfield update_bitfield padding_clear
    bitfield_applied messages_from peer_run peer_runs first_piece_size start_session peer_loop
    try_peer download handle_message next_piece_size advance_piece write_piece finish_piece
    send_request request_block round new_capacity reserve is_valid_parser bencode_parser_init
    byte_exists_at_position peek_current_byte consume_current_byte get_available_byte_count
    bytes_exist_from_current_parser_position read_bencode_string value start_offset encoded_length
    parse_value parse_object parse_bencode_buffer key_precedes last_key sorted_after store_item
    store_entry list_loop parse_bencode_list dict_loop parse_bencode_dict integer_value
    would_overflow read_sign magnitude_loop parse_bencode_integer determine_bencode_data_type
    string_length_loop determine_byte_string_length parse_bencode_string announce_to_tracker
    take_peers download_from main exit_code write_chunk_to_tracker_response_buffer deliver perform
    tracker_announce find_response_entry find_interval find_peers tracker_response_parse
    extract_peers digits print_unsigned safely_increased_url_length increase_all
    add_query_parameter_to_url add_all write_url build_tracker_url parse_peer_from_segment
    is_valid_peers_ipv4_list compact_loop peers_extract_compact read_entry entries_loop items_loop
    peers_extract_list
read_run = refl

abbrev all_bytes : Bytes → Bool
all_bytes [] = true
all_bytes (b ∷ bs) = ltb b 256 && all_bytes bs

all_bytes-AllBytes : (bs : Bytes) → all_bytes bs ≡ true → AllBytes bs
all_bytes-AllBytes [] e = tt
all_bytes-AllBytes (b ∷ bs) e = (ground (arith, e), all_bytes-AllBytes bs (ground (arith, e)))

main-received_example :
    (s : Session) × ((main socket_system).0 ≡ some s)
    × ((i : ℕ)
        → i < piece_count (torrent_of document.metadata.info)
        → OnFile hash (torrent_of document.metadata.info) s.file i)
main-received_example =
    main-received socket_system document (replicate 20 5) (replicate 20 9) (connection ∷ [])
      granted_size read_run torrent-IsConsistent refl (all_bytes-AllBytes incoming refl, tt)
      socket_run
