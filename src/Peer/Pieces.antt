-- ===== src/Peer/Pieces.antt =====
-- src/peer_connection.c: a block of the current piece comes in.
pub mod Laws
use loco.Base.{
  copy_at, ℕ, ◌+◌, ◌-◌, Bool, true, false, not, ◌&&◌, ◌||◌, Option, none, some, Bytes, get_or, take,
  drop, ltb, ◌==◌, if◌then◌else◌,
}
use loco.Peer.Types.{MessageId, PeerWireMessage, PieceDownloadState}
use loco.Peer.Wire.{from_big_endian}

pub record PieceInfo : Type 0 where
  pub piece_index : ℕ
  pub begin : ℕ
  pub block : Bytes
  pub block_length : ℕ

abbrev pub is_piece : MessageId → Bool
is_piece MessageId.piece = true
is_piece _ = false

abbrev piece_info : Option Bytes → ℕ → Option PieceInfo
piece_info none n = none
piece_info (some p) n = some (record {
  piece_index = from_big_endian (get_or p 0 0) (get_or p 1 0) (get_or p 2 0) (get_or p 3 0);
  begin = from_big_endian (get_or p 4 0) (get_or p 5 0) (get_or p 6 0) (get_or p 7 0);
  block = drop 8 p;
  block_length = n - 8;
})

unfoldable pub determine_piece_info_from_piece_payload : PeerWireMessage → Option PieceInfo
determine_piece_info_from_piece_payload m =
    if not (is_piece m.message_id) || ltb m.payload_length 8
    then none
    else piece_info m.payload m.payload_length

-- The block answers the pending request, and lies within the piece.
unfoldable pub block_accepted : PieceDownloadState → PieceInfo → Bool
block_accepted s i =
    i.piece_index == s.piece_index
    && i.begin == s.requested_begin
    && i.block_length == s.requested_length
    && not (ltb s.piece_size i.begin)
    && not (ltb (s.piece_size - i.begin) i.block_length)

abbrev pub store_block : PieceDownloadState → PieceInfo → PieceDownloadState
store_block s i = record s {
  piece_buffer = copy_at s.piece_buffer i.begin (take i.block_length i.block);
  bytes_received = s.bytes_received + i.block_length;
  request_pending = false;
}

abbrev accept_block : PieceDownloadState → Option PieceInfo → Option PieceDownloadState
accept_block s none = none
accept_block s (some i) = if block_accepted s i then some (store_block s i) else none

-- None is a returned false, which leaves the state alone.
unfoldable pub process_incoming_piece_message :
    PieceDownloadState → PeerWireMessage → Option PieceDownloadState
process_incoming_piece_message s m =
    if s.request_pending then accept_block s (determine_piece_info_from_piece_payload m) else none
