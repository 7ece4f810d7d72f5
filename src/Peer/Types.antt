-- ===== src/Peer/Types.antt =====
-- include/peer_connection.h: messages, connections and the download state of a piece.
use loco.Base.{ℕ, Bool, Option, none, Bytes, false}

pub data MessageId : Type 0 where
  choke unchoke interested not_interested have bitfield request piece cancel invalid : MessageId

-- A null `bytes` is `none`.
pub record PieceBitfield : Type 0 where
  pub bytes : Option Bytes
  pub length : ℕ

pub record PeerConnection : Type 0 where
  pub peer_piece_bitfield : PieceBitfield
  pub peer_choking_us : Bool
  pub we_are_interested : Bool

pub record PeerWireMessage : Type 0 where
  pub message_id : MessageId
  pub payload : Option Bytes
  pub payload_length : ℕ
  pub is_keep_alive : Bool

-- `piece_buffer` is the allocated block.
pub record PieceDownloadState : Type 0 where
  pub piece_index : ℕ
  pub piece_size : ℕ
  pub piece_buffer : Bytes
  pub bytes_received : ℕ
  pub request_pending : Bool
  pub requested_begin : ℕ
  pub requested_length : ℕ

-- `{.message_id = PEER_MESSAGE_INVALID}`, which `free_peer_wire_message` makes of any message.
abbrev pub empty_message : PeerWireMessage
empty_message = record {
  message_id = MessageId.invalid;
  payload = none;
  payload_length = 0;
  is_keep_alive = false;
}

unfoldable pub free_peer_wire_message : PeerWireMessage → PeerWireMessage
free_peer_wire_message m = record m {
  message_id = MessageId.invalid;
  is_keep_alive = false;
  payload = none;
  payload_length = 0;
}

unfoldable pub reset_piece_state : PieceDownloadState → PieceDownloadState
reset_piece_state s = record s {
  request_pending = false;
  requested_length = 0;
  requested_begin = 0;
  bytes_received = 0;
}
