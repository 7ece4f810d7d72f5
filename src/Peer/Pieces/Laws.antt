-- ===== src/Peer/Pieces/Laws.antt =====
-- The received part of a piece grows by the block that was asked for, and by nothing else.
use loco.Base.{
  get_or, ltb, take_all, copy_at, copy_at_lem, length-copy_at, ℕ, ◌+◌, ◌-◌, ◌≤◌, ◌≡◌, refl, sym, ap,
  subst, ◌∙◌, inl, inr, true, false, Option-cases, some, ◌++◌, append_assoc, Bytes, arith, length,
  take, drop, length-append, length-take, length-drop, take-append,
}
use loco.Peer.Wire.{from_big_endian}
use loco.Peer.Types.{MessageId, PeerWireMessage, PieceDownloadState}
use loco.Peer.Pieces.{
  is_piece, PieceInfo, determine_piece_info_from_piece_payload, block_accepted, store_block,
  process_incoming_piece_message,
}

-- The piece fits in its buffer, and a pending request asks for the bytes behind those received.
pub record IsSound (s : PieceDownloadState) : Type 0 where
  pub room : s.piece_size ≤ length s.piece_buffer
  pub received : s.bytes_received ≤ s.piece_size
  pub asked_next : s.request_pending ≡ true → s.requested_begin ≡ s.bytes_received
  pub asked_inside :
      s.request_pending ≡ true → s.requested_begin + s.requested_length ≤ s.piece_size

-- What an accepted block changes, in a sound state: the buffer keeps its size, and its first bytes
-- are those received before with the block behind them.
pub record Progress (s t : PieceDownloadState) (block : Bytes) : Type 0 where
  pub sound : IsSound t
  pub asked : length block ≡ s.requested_length
  pub counted : t.bytes_received ≡ s.bytes_received + s.requested_length
  pub kept : take t.bytes_received t.piece_buffer ≡ take s.bytes_received s.piece_buffer ++ block
  pub answered : t.request_pending ≡ false
  pub same_piece : t.piece_index ≡ s.piece_index
  pub same_size : t.piece_size ≡ s.piece_size
  pub same_room : length t.piece_buffer ≡ length s.piece_buffer

take-append_part :
    (xs ys zs : Bytes) (n : ℕ) → n ≡ length (xs ++ ys) → take n (xs ++ (ys ++ zs)) ≡ xs ++ ys
take-append_part xs ys zs n e =
    ap (take n) (sym (append_assoc xs ys zs))
    ∙ subst (λ k. take k ((xs ++ ys) ++ zs) ≡ xs ++ ys) (sym e) (take-append (xs ++ ys) zs)

-- The message announces as many bytes as its payload has, as a received one does.
abbrev pub IsWhole : PeerWireMessage → Type 0
IsWhole m = (p : Bytes) → m.payload ≡ some p → m.payload_length ≡ length p

whole_block :
    (i : PieceInfo) (m : PeerWireMessage)
    → IsWhole m
    → determine_piece_info_from_piece_payload m ≡ some i
    → i.block_length ≡ length i.block
unfolding determine_piece_info_from_piece_payload
whole_block i m whole e = elim (Option-cases m.payload) [
  | inl z ↦ absurd (ground arith)
  | inr (p, z) ↦
      let n : m.payload_length - 8 ≡ i.block_length = ground arith in
      let d : drop 8 p ≡ i.block = ground arith in
      omega (arith, n, ap length d, length-drop 8 p, whole p z)
]

store_block-Progress :
    (s : PieceDownloadState) (i : PieceInfo)
    → IsSound s
    → s.request_pending ≡ true
    → i.block_length ≡ length i.block
    → block_accepted s i ≡ true
    → Progress s (store_block s i) i.block
unfolding block_accepted
store_block-Progress s i v pending whole ok = record {
  sound = record {
    room =
        omega (arith, v.room, length-copy_at s.piece_buffer i.begin (take i.block_length i.block));
    received = omega (arith, v.asked_next pending, v.asked_inside pending, length_asked);
    asked_next = λ h. cc;
    asked_inside = λ h. cc;
  };
  asked = omega (arith, whole, length_asked);
  counted = ap (λ n. s.bytes_received + n) length_asked;
  kept =
      ap (take (s.bytes_received + i.block_length)) copied
      ∙ take-append_part (take s.bytes_received s.piece_buffer) i.block _
          (s.bytes_received + i.block_length)
          (omega (
            arith,
            whole,
            length-append (take s.bytes_received s.piece_buffer) i.block,
            length-take s.bytes_received s.piece_buffer,
            v.received,
            v.room,
          ));
  answered = refl;
  same_piece = refl;
  same_size = refl;
  same_room = length-copy_at s.piece_buffer i.begin (take i.block_length i.block);
}
  where
    length_asked : i.block_length ≡ s.requested_length
    length_asked = ground arith

    begin_asked : i.begin ≡ s.requested_begin
    begin_asked = ground arith

    all_of_it : take i.block_length i.block ≡ i.block
    all_of_it =
        subst (λ n. take n i.block ≡ i.block) (sym whole)
          (take_all (length i.block) i.block (omega arith))

    at_received : i.begin ≡ s.bytes_received
    at_received = begin_asked ∙ v.asked_next pending

    copied :
        copy_at s.piece_buffer i.begin (take i.block_length i.block)
        ≡ take s.bytes_received s.piece_buffer
          ++ (i.block ++ drop (s.bytes_received + length i.block) s.piece_buffer)
    copied =
        rw (all_of_it, at_received)
          (copy_at_lem s.piece_buffer s.bytes_received i.block (
            omega
              (arith, whole, length_asked, v.room, v.asked_next pending, v.asked_inside pending)))

-- What a piece message says of itself, read from its bytes: the piece, the place in it, and the block.
pub record Answers (s : PieceDownloadState) (m : PeerWireMessage) (block : Bytes) : Type 0 where
  pub is_pending : s.request_pending ≡ true
  pub is_piece_message : m.message_id ≡ MessageId.piece
  pub payload : Bytes
  pub has_payload : m.payload ≡ some payload
  pub has_header : 8 ≤ length payload
  pub of_piece :
      from_big_endian
        (get_or payload 0 0)
        (get_or payload 1 0)
        (get_or payload 2 0)
        (get_or payload 3 0)
      ≡ s.piece_index
  pub at_begin :
      from_big_endian
        (get_or payload 4 0)
        (get_or payload 5 0)
        (get_or payload 6 0)
        (get_or payload 7 0)
      ≡ s.requested_begin
  pub the_rest : block ≡ drop 8 payload

is_piece-true : (i : MessageId) → is_piece i ≡ true → i ≡ MessageId.piece
is_piece-true MessageId.piece h = refl
is_piece-true MessageId.choke h = cc h
is_piece-true MessageId.unchoke h = cc h
is_piece-true MessageId.interested h = cc h
is_piece-true MessageId.not_interested h = cc h
is_piece-true MessageId.have h = cc h
is_piece-true MessageId.bitfield h = cc h
is_piece-true MessageId.request h = cc h
is_piece-true MessageId.cancel h = cc h
is_piece-true MessageId.invalid h = cc h

accepted-Answers :
    (s : PieceDownloadState) (m : PeerWireMessage) (i : PieceInfo)
    → IsWhole m
    → s.request_pending ≡ true
    → determine_piece_info_from_piece_payload m ≡ some i
    → block_accepted s i ≡ true
    → Answers s m i.block
unfolding determine_piece_info_from_piece_payload block_accepted
accepted-Answers s m i whole pending e ok = elim (Option-cases m.payload) [
  | inl z ↦ absurd (ground arith)
  | inr (p, z) ↦
      let long : ltb m.payload_length 8 ≡ false = ground arith in
      let right_piece : i.piece_index ≡ s.piece_index = ground arith in
      let right_begin : i.begin ≡ s.requested_begin = ground arith in
      record {
        is_pending = pending;
        is_piece_message = is_piece-true m.message_id (ground arith);
        payload = p;
        has_payload = z;
        has_header = ground (arith, whole p z, long);
        of_piece = ground arith;
        at_begin = ground arith;
        the_rest = ground arith;
      }
]

-- In a sound state, an accepted piece message, whose payload has the length that it says, answers the
-- pending request: its payload is the number of the piece, the place that was asked for and a block, by
-- which the received part grows. The state stays sound.
pub process_incoming-Progress :
    (s t : PieceDownloadState) (m : PeerWireMessage)
    → IsSound s
    → IsWhole m
    → process_incoming_piece_message s m ≡ some t
    → (block : Bytes) × Answers s m block × Progress s t block
unfolding process_incoming_piece_message
process_incoming-Progress s t m v whole e =
    elim (Option-cases (determine_piece_info_from_piece_payload m)) [
      | inl z ↦ absurd (ground arith)
      | inr (i, z) ↦
          let pending : s.request_pending ≡ true = ground arith in
          let ok : block_accepted s i ≡ true = ground arith in
          let same : store_block s i ≡ t = ground arith in
          (
            i.block,
            accepted-Answers s m i whole pending z ok,
            subst (λ x. Progress s x i.block) same
                (store_block-Progress s i v pending (whole_block i m whole z) ok),
          )
    ]
