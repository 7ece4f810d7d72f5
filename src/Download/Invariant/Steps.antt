-- ===== src/Download/Invariant/Steps.antt =====
-- Every step of a round keeps the invariant.
use loco.Base.{
  ℕ, ◌+◌, ◌-◌, ◌/◌, ◌≤◌, ◌<◌, ◌≡◌, refl, sym, ap, subst, ◌∙◌, ◌⊎◌, inl, inr, not, ◌&&◌, ◌||◌,
  Option, Option-cases, none, some, Bytes, arith, length, ltb, leb, if◌then◌else◌,
}
use loco.Peer.Types.{
  MessageId, PeerConnection, PeerWireMessage, PieceDownloadState, reset_piece_state,
}
use loco.Peer.Bitfield.{has_piece}
use loco.Peer.Pieces.{process_incoming_piece_message}
use loco.Peer.Pieces.Laws.{IsSound, IsWhole, process_incoming-Progress}
use loco.Download.State.{Torrent, piece_count, Session, Answers}
use loco.Download.Keeps.{Keeps, stays, leaves, Keeps-if}
use loco.Download.Round.{
  with_connection, with_piece, dispatch, requested, interested, ask_peer, block_size, uint32_max,
  handle_message, send_request, request_block,
}
use loco.Download.Invariant.{IsConsistent, size_of, Inv}

request_fits : (r n : ℕ) → r ≤ n → r + (if ltb (n - r) block_size then n - r else block_size) ≤ n
request_fits r n h = ground arith

request_small : (r n : ℕ) → (if ltb (n - r) block_size then n - r else block_size) ≤ block_size
request_small r n = ground arith

module _ (sha1 : Bytes → Bytes) (t : Torrent) (fits : IsConsistent t) where
  -- Another connection and another state of the same piece.
  Inv-piece :
      (s : Session) (p : PieceDownloadState) (c : PeerConnection)
      → Inv sha1 t s
      → IsSound p
      → p.piece_index ≡ s.piece.piece_index
      → p.piece_size ≡ s.piece.piece_size
      → length p.piece_buffer ≡ length s.piece.piece_buffer
      → Inv sha1 t (record s { piece = p; connection = c })
  Inv-piece s p c v sound i n b = record {
    sound = sound;
    piece_sized = λ h. n ∙ v.piece_sized (omega (arith, i)) ∙ ap (size_of t) (sym i);
    roomy = subst (λ k. (t.normal_piece_size ≤ k) ⊎ (piece_count t ≡ 1)) (sym b) v.roomy;
    checked = v.checked;
    done = λ j h. v.done j (omega (arith, i));
    complete = λ h. subst (λ k. piece_count t ≤ k) (sym i) (v.complete h);
    inside = v.inside;
  }

  reset-IsSound : (p : PieceDownloadState) → IsSound p → IsSound (reset_piece_state p)
  unfolding reset_piece_state
  reset-IsSound p v = record {
    room = v.room;
    received = omega arith;
    asked_next = λ h. refl;
    asked_inside = λ h. omega arith;
  }

  pub reset-Inv :
      (s : Session) → Inv sha1 t s → Inv sha1 t (record s { piece = reset_piece_state s.piece })
  unfolding reset_piece_state
  reset-Inv s v =
      Inv-piece s (reset_piece_state s.piece) s.connection v (reset-IsSound s.piece v.sound) refl
        refl refl

  pub connection-Inv :
      (s : Session) (c : PeerConnection) → Inv sha1 t s → Inv sha1 t (record s { connection = c })
  connection-Inv s c v = Inv-piece s s.piece c v v.sound refl refl refl

  process-Inv :
      (s : Session) (m : PeerWireMessage)
      → IsWhole m
      → Inv sha1 t s
      → Keeps (Inv sha1 t) (with_piece s (process_incoming_piece_message s.piece m))
  process-Inv s m whole v = elim (Option-cases (process_incoming_piece_message s.piece m)) [
    | inl z ↦ rw z (leaves v)
    | inr (p, z) ↦
        let (block, h, g) = process_incoming-Progress s.piece p m v.sound whole z in
        rw z (stays (Inv-piece s p s.connection v g.sound g.same_piece g.same_size g.same_room))
  ]

  with_connection-Inv :
      (s : Session) (o : Option PeerConnection)
      → Inv sha1 t s
      → Keeps (Inv sha1 t) (with_connection s o)
  with_connection-Inv s none v = leaves v
  with_connection-Inv s (some c) v = stays (connection-Inv s c v)

  pub handle_message-Inv :
      (a : Answers) (s : Session) (m : PeerWireMessage)
      → IsWhole m
      → Inv sha1 t s
      → Keeps (Inv sha1 t) (handle_message t a s m)
  unfolding handle_message
  handle_message-Inv a s m whole v = by_id m.message_id
    where
      by_id : (i : MessageId) → Keeps (Inv sha1 t) (dispatch t a s m i)
      by_id MessageId.choke = stays (connection-Inv s _ v)
      by_id MessageId.unchoke = stays (connection-Inv s _ v)
      by_id MessageId.have = with_connection-Inv s _ v
      by_id MessageId.bitfield = with_connection-Inv s _ v
      by_id MessageId.piece = process-Inv s m whole v
      by_id _ = stays v

  requested-Inv :
      (a : Answers) (s : Session) (n : ℕ)
      → s.piece.piece_index < piece_count t
      → s.piece.bytes_received + n ≤ s.piece.piece_size
      → n ≤ block_size
      → Inv sha1 t s
      → Inv sha1 t (requested sha1 t a s n)
  requested-Inv a s n h k small v = record {
    sound = record {
      room = v.sound.room;
      received = v.sound.received;
      asked_next = λ _. refl;
      asked_inside = λ _. k;
    };
    piece_sized = v.piece_sized;
    roomy = v.roomy;
    checked = v.checked;
    done = v.done;
    complete = v.complete;
    inside = (
      record {
        index_in_range = h;
        block_in_piece = subst (λ z. s.piece.bytes_received + n ≤ z) (v.piece_sized h) k;
        block_small = small;
      },
      v.inside,
    );
  }

  request-Inv :
      (a : Answers) (s : Session)
      → s.piece.piece_index < piece_count t
      → s.piece.bytes_received ≤ s.piece.piece_size
      → Inv sha1 t s
      → Keeps (Inv sha1 t) (send_request sha1 t a s)
  unfolding send_request
  request-Inv a s h k v =
      let c = s.connection in
      let p = s.piece in
      let remaining : ℕ = p.piece_size - p.bytes_received in
      Keeps-if (c.we_are_interested && not c.peer_choking_us && not p.request_pending)
        (λ free.
          Keeps-if (ltb uint32_max p.piece_index || ltb uint32_max p.bytes_received) (λ _. leaves v)
            (λ _.
              Keeps-if a.request_sent
                (λ _. stays (
                  requested-Inv a s (if ltb remaining block_size then remaining else block_size) h
                    (request_fits p.bytes_received p.piece_size k)
                    (request_small p.bytes_received p.piece_size) v))
                (λ _. leaves v)))
        (λ _. stays v)

  ask_peer-Inv :
      (a : Answers) (s : Session) (o : Option Bytes)
      → Inv sha1 t s
      → Keeps (Inv sha1 t) (ask_peer sha1 t a s o)
  ask_peer-Inv a s none v = stays v
  ask_peer-Inv a s (some bytes) v =
      let c = s.connection in
      let p = s.piece in
      Keeps-if (leb (piece_count t) p.piece_index) (λ _. leaves v)
        (λ running.
          let h : p.piece_index < piece_count t = ground (arith, running) in
          let r : p.bytes_received ≤ p.piece_size = v.sound.received in
          Keeps-if (leb c.peer_piece_bitfield.length (p.piece_index / 8)) (λ _. leaves v)
            (λ _.
              Keeps-if (has_piece bytes p.piece_index)
                (λ _.
                  Keeps-if (ltb p.piece_size p.bytes_received) (λ _. leaves v)
                    (λ _.
                      Keeps-if c.we_are_interested (λ _. request-Inv a s h r v)
                        (λ _.
                          Keeps-if a.interested_sent
                            (λ _. request-Inv a (interested sha1 t a s) h r (connection-Inv s _ v))
                            (λ _. leaves v))))
                (λ _. leaves v)))

  pub request_block-Inv :
      (a : Answers) (s : Session) → Inv sha1 t s → Keeps (Inv sha1 t) (request_block sha1 t a s)
  unfolding request_block
  request_block-Inv a s v = ask_peer-Inv a s s.connection.peer_piece_bitfield.bytes v
