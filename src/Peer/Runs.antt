-- ===== src/Peer/Runs.antt =====
-- Messages of the peer wire protocol, and what the theorems say of them.
use loco.Tracker.Peers.{Peer}
use loco.Base.{
  if◌then◌else◌, same_bytes, ◌&&◌, ℕ, ◌≡◌, ◌↔◌, refl, ap, pos, true, false, ◌||◌, Option, none,
  some, [], ◌∷◌, ◌++◌, Bytes, arith, length, replicate, ◌==◌,
}
use loco.Resources.{
  acquired, released, descriptor, ◌>>=◌, or_exit, acquire_or_exit, unless_exit, settle,
}
use loco.Peer.Connect.{
  ConnectAnswers, connected, in_progress, unreachable, await_connection, connect_to_peer,
}
use loco.Peer.Connect.Laws.{descriptor_held, settle-connect_to_peer}
use loco.Peer.Types.{MessageId, PeerConnection, PeerWireMessage, PieceDownloadState}
use loco.Peer.Wire.{
  big_endian, build_request, build_handshake, handshake_protocol, validate_handshake_response,
}
use loco.Peer.Wire.Laws.{build_request_lem, validate-build_handshake}
use loco.Peer.Bitfield.{
  set_piece, has_piece, current_bitfield, padding_clear, update_bitfield, bitfield_applied,
}
use loco.Peer.Bitfield.Laws.{
  has_piece-set_piece, IsKnown, News, update_bitfield-News, bitfield_applied_lem,
}
use loco.Peer.Pieces.{
  determine_piece_info_from_piece_payload, block_accepted, process_incoming_piece_message,
}
use loco.Peer.Pieces.Laws.{IsSound, Answers, Progress, process_incoming-Progress}

build_request_lem_example :
    build_request (replicate 17 7) 258 16384 16384
    ≡ some (big_endian 13 ++ 6 ∷ (big_endian 258 ++ (big_endian 16384 ++ big_endian 16384)))
build_request_lem_example = build_request_lem (replicate 17 7) 258 16384 16384 refl

abbrev hash : ℕ → Bytes
hash b = replicate 20 b

abbrev other_handshake : Bytes
other_handshake = 19 ∷ (handshake_protocol ++ (replicate 8 0 ++ (hash 5 ++ hash 9)))

handshake_run : build_handshake (hash 5) (hash 9) 68 ≡ some other_handshake
unfolding build_handshake
handshake_run = refl

validate-build_handshake_example :
    (validate_handshake_response other_handshake (hash 6) ≡ true) ↔ (hash 5 ≡ hash 6)
validate-build_handshake_example =
    validate-build_handshake (hash 5) (hash 6) (hash 9) other_handshake refl refl handshake_run

has_piece-set_piece_example :
    has_piece (set_piece (1 ∷ 64 ∷ []) 11) 9 ≡ (11 == 9 || has_piece (1 ∷ 64 ∷ []) 9)
has_piece-set_piece_example =
    has_piece-set_piece (1 ∷ 64 ∷ []) 11 9 (omega arith, (omega arith, tt)) (omega arith)

abbrev connection : Option Bytes → ℕ → PeerConnection
connection bytes n = record {
  peer_piece_bitfield = record { bytes = bytes; length = n };
  peer_choking_us = true;
  we_are_interested = false;
}

-- `have 9` of ten pieces, and the bitfield 80 40.
have_run :
    update_bitfield true (connection none 0) (0 ∷ 0 ∷ 0 ∷ 9 ∷ []) 4 10
    ≡ some (connection (some (0 ∷ 64 ∷ [])) 2)
unfolding update_bitfield current_bitfield set_piece
have_run = refl

update_bitfield-News_example :
    News 10 (connection none 0) (connection (some (0 ∷ 64 ∷ [])) 2) (0 ∷ 0 ∷ 0 ∷ 9 ∷ [])
update_bitfield-News_example = update_bitfield-News true _ _ _ 4 10 refl have_run

abbrev bits : Bytes
bits = 128 ∷ 64 ∷ []

bitfield_run :
    bitfield_applied true (connection none 0) bits (length bits) 10
    ≡ some (connection (some bits) 2)
unfolding bitfield_applied padding_clear
bitfield_run = refl

bitfield_applied_lem_example :
    ((connection none 0).peer_piece_bitfield.bytes ≡ none)
    × IsKnown 10 (some bits) 2
    × (some bits ≡ some bits)
    × (true ≡ true)
    × (false ≡ false)
bitfield_applied_lem_example =
    bitfield_applied_lem true (connection none 0) (connection (some bits) 2) bits 10
      (omega arith, (omega arith, tt)) bitfield_run

-- The second block, of two bytes, of a piece of four.
abbrev half_received : PieceDownloadState
half_received = record {
  piece_index = 1;
  piece_size = 4;
  piece_buffer = 8 ∷ 9 ∷ 0 ∷ 0 ∷ [];
  bytes_received = 2;
  request_pending = true;
  requested_begin = 2;
  requested_length = 2;
}

half_received-IsSound : IsSound half_received
half_received-IsSound = record {
  room = omega arith;
  received = omega arith;
  asked_next = λ _. refl;
  asked_inside = λ _. omega arith;
}

abbrev second_block : PeerWireMessage
second_block = record {
  message_id = MessageId.piece;
  payload = some (0 ∷ 0 ∷ 0 ∷ 1 ∷ 0 ∷ 0 ∷ 0 ∷ 2 ∷ 5 ∷ 6 ∷ []);
  payload_length = 10;
  is_keep_alive = false;
}

abbrev all_received : PieceDownloadState
all_received = record half_received {
  piece_buffer = 8 ∷ 9 ∷ 5 ∷ 6 ∷ [];
  bytes_received = 4;
  request_pending = false;
}

abbrev payload_size : Option Bytes → ℕ
payload_size none = 0
payload_size (some p) = length p

piece_run : process_incoming_piece_message half_received second_block ≡ some all_received
unfolding process_incoming_piece_message determine_piece_info_from_piece_payload block_accepted
piece_run = refl

process_incoming-Progress_example :
    (block : Bytes) × Answers half_received second_block block
    × Progress half_received all_received block
process_incoming-Progress_example =
    process_incoming-Progress half_received all_received second_block half_received-IsSound
      (λ p e. ap payload_size e) piece_run

abbrev peer : Peer
peer = record { ipv4_address = 1 ∷ 2 ∷ 3 ∷ 4 ∷ []; port = 6881 }

-- A connection to that peer's address which is not made in time; no other can be reached.
abbrev slow : ConnectAnswers
slow = record {
  socket = some 3;
  flags = some 2;
  nonblocking_set = true;
  connecting = λ a.
      if same_bytes a.sin_addr (1 ∷ 2 ∷ 3 ∷ 4 ∷ []) && same_bytes a.sin_port (26 ∷ 225 ∷ [])
      then in_progress
      else unreachable;
  poll_result = pos 0;
  error_read = true;
  socket_error = 0;
  flags_set_back = true;
}

slow_run : connect_to_peer peer slow ≡ (none, acquired descriptor ∷ released descriptor ∷ [])
unfolding connect_to_peer await_connection ◌>>=◌ acquire_or_exit or_exit unless_exit
slow_run = refl

unreachable_run :
    connect_to_peer (record peer { port = 80 }) slow
    ≡ (none, acquired descriptor ∷ released descriptor ∷ [])
unfolding connect_to_peer await_connection ◌>>=◌ acquire_or_exit or_exit unless_exit
unreachable_run = refl

made_run : (connect_to_peer peer (record slow { connecting = λ a. connected })).0 ≡ some 3
unfolding connect_to_peer await_connection ◌>>=◌ acquire_or_exit or_exit unless_exit
made_run = refl

settle-connect_to_peer_example :
    settle (connect_to_peer peer slow).1 (some [])
    ≡ some (descriptor_held (connect_to_peer peer slow).0)
settle-connect_to_peer_example = settle-connect_to_peer peer slow
