-- ===== src/Download/Round.antt =====
-- src/main.c: one round of the loop over the messages of a peer.

use loco.Base.{
  same_bytes, ℕ, ◌+◌, ◌-◌, ◌*◌, ◌/◌, Bool, true, false, not, ◌&&◌, ◌||◌, Option, none, some, ◌∷◌,
  Bytes, size_max, int64_max, take, drop, length, ltb, leb, ◌==◌, if◌then◌else◌,
}
use loco.Peer.Types.{
  MessageId, PeerConnection, PeerWireMessage, PieceDownloadState, reset_piece_state,
}
use loco.Peer.Bitfield.{has_piece, update_bitfield, bitfield_applied}
use loco.Peer.Pieces.{process_incoming_piece_message}
use loco.Download.State.{Torrent, piece_count, Session, Answers, Ended, stay, leave}

abbrev pub block_size : ℕ
block_size = 16384

abbrev pub uint32_max : ℕ
uint32_max = 4294967295

-- `break`, or `connection_active = false; continue`, on a returned false.
abbrev pub with_connection : Session → Option PeerConnection → Ended
with_connection s none = leave s
with_connection s (some c) = stay (record s { connection = c })

abbrev pub with_piece : Session → Option PieceDownloadState → Ended
with_piece s none = leave s
with_piece s (some p) = stay (record s { piece = p })

abbrev pub set_choking : Session → Bool → Session
set_choking s b = record s { connection = record c { peer_choking_us = b } }
  where
    c : PeerConnection
    c = s.connection

-- A null payload is refused.
abbrev pub on_payload : Option Bytes → (Bytes → Option PeerConnection) → Option PeerConnection
on_payload none f = none
on_payload (some p) f = f p

abbrev pub dispatch : Torrent → Answers → Session → PeerWireMessage → MessageId → Ended
dispatch t a s m MessageId.choke = stay (set_choking s true)
dispatch t a s m MessageId.unchoke = stay (set_choking s false)
dispatch t a s m MessageId.have = with_connection s (
    on_payload m.payload
      λ p. update_bitfield a.granted s.connection p m.payload_length (piece_count t))
dispatch t a s m MessageId.bitfield = with_connection s (
    on_payload m.payload
      λ p. bitfield_applied a.granted s.connection p m.payload_length (piece_count t))
dispatch t a s m MessageId.piece = with_piece s (process_incoming_piece_message s.piece m)
dispatch t a s m _ = stay s

-- The switch over the message's id.
unfoldable pub handle_message : Torrent → Answers → Session → PeerWireMessage → Ended
handle_message t a s m = dispatch t a s m m.message_id

-- The size of the piece that comes next: none where the size of the last one cannot be computed.
unfoldable pub next_piece_size : Torrent → ℕ → ℕ → Option ℕ
next_piece_size t piece_index piece_size =
    let last_index = piece_count t - 1 in
    let offset_last_piece = t.normal_piece_size * last_index in
    if piece_index == last_index
    then (if not (last_index == 0) && ltb (size_max / last_index) t.normal_piece_size
        then none
        else if ltb t.total_file_size offset_last_piece
        then none
        else some (t.total_file_size - offset_last_piece))
    else some piece_size

abbrev pub size_next : Torrent → Session → Option ℕ → Ended
size_next t s none = leave s
size_next t s (some n) = stay (record s { piece = record p { piece_size = n } })
  where
    p : PieceDownloadState
    p = s.piece

-- After a piece is written: on to the next one, or done.
unfoldable pub advance_piece : Torrent → Session → Ended
advance_piece t s =
    let p = reset_piece_state (record p0 { piece_index = s.piece.piece_index + 1 }) in
    let s' = record s { piece = p } in
    if leb (piece_count t) p.piece_index
    then leave (record s' { download_complete = true })
    else size_next t s' (next_piece_size t p.piece_index p.piece_size)
  where
    p0 : PieceDownloadState
    p0 = s.piece

-- The hash of a piece, as the torrent has it.
abbrev pub expected_hash : Torrent → ℕ → Bytes
expected_hash t piece_index = take 20 (drop (piece_index * 20) t.pieces)

abbrev pub piece_content : PieceDownloadState → Bytes
piece_content p = take p.piece_size p.piece_buffer

module _ (sha1 : Bytes → Bytes) (t : Torrent) (a : Answers) where
  -- The seek and the write of a piece that is checked.
  unfoldable pub write_piece : Session → Ended
  write_piece s =
      let p = s.piece in
      let file_offset = p.piece_index * t.normal_piece_size in
      let s' = record s {
        file =
            record { offset = file_offset; bytes = take a.written_elements (piece_content p) }
            ∷ s.file;
      } in
      if not (p.piece_index == 0) && ltb (size_max / p.piece_index) t.normal_piece_size
      then leave s
      else if ltb int64_max file_offset
      then leave s
      else if a.seek_ok
      then (if a.written_elements == p.piece_size then advance_piece t s' else leave s')
      else leave s

  -- Once all bytes of the piece are there: the check against the torrent's hash.
  unfoldable pub finish_piece : Session → Ended
  finish_piece s =
      let p = s.piece in
      if p.bytes_received == p.piece_size
      then (if ltb (length t.pieces - 20) (p.piece_index * 20)
          then leave s
          else if same_bytes (sha1 (piece_content p)) (expected_hash t p.piece_index)
          then write_piece s
          else leave (record s { piece = reset_piece_state p }))
      else stay s

  abbrev pub requested : Session → ℕ → Session
  requested s n = record s {
    piece = record p {
      request_pending = true;
      requested_length = n;
      requested_begin = p.bytes_received;
    };
    requests = record { index = p.piece_index; begin = p.bytes_received; length = n } ∷ s.requests;
  }
    where
      p : PieceDownloadState
      p = s.piece

  -- The request for the next block, if none is pending and the peer lets us ask.
  unfoldable pub send_request : Session → Ended
  send_request s =
      let p = s.piece in
      let remaining = p.piece_size - p.bytes_received in
      let request_length = if ltb remaining block_size then remaining else block_size in
      if s.connection.we_are_interested && not s.connection.peer_choking_us && not p.request_pending
      then (if ltb uint32_max p.piece_index || ltb uint32_max p.bytes_received
          then leave s
          else if a.request_sent
          then stay (requested s request_length)
          else leave s)
      else stay s

  abbrev pub interested : Session → Session
  interested s = record s { connection = record c { we_are_interested = true } }
    where
      c : PeerConnection
      c = s.connection

  abbrev pub ask_peer : Session → Option Bytes → Ended
  ask_peer s none = stay s
  ask_peer s (some bytes) =
      let p = s.piece in
      if leb (piece_count t) p.piece_index
      then leave s
      else if leb s.connection.peer_piece_bitfield.length (p.piece_index / 8)
      then leave s
      else if has_piece bytes p.piece_index
      then (if ltb p.piece_size p.bytes_received
          then leave s
          else if s.connection.we_are_interested
          then send_request s
          else if a.interested_sent
          then send_request (interested s)
          else leave s)
      else leave s

  -- What the peer is asked for, once it has told which pieces it has.
  unfoldable pub request_block : Session → Ended
  request_block s = ask_peer s s.connection.peer_piece_bitfield.bytes

  abbrev pub and_then : Ended → (Session → Ended) → Ended
  and_then (leave s) f = leave s
  and_then (stay s) f = f s

  -- One round, on a message that was received.
  unfoldable pub round : Session → PeerWireMessage → Ended
  round s m =
      if m.is_keep_alive
      then stay s
      else and_then (handle_message t a s m) λ s1. and_then (finish_piece s1) request_block
