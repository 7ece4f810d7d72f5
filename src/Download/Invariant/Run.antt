-- ===== src/Download/Invariant/Run.antt =====
-- src/main.c: the invariant over whole downloads, and what it says of the file and the requests.
use loco.Base.{
  ℕ, ◌≤◌, ◌<◌, ◌≡◌, refl, ◌⊎◌, inl, inr, Bool, true, false, Bool-cases, Option, none, some, List,
  [], ◌∷◌, Bytes, arith, length, ◌==◌, if◌then◌else◌,
}
use loco.Peer.Types.{PeerWireMessage}
use loco.Peer.Pieces.Laws.{IsWhole}
use loco.Download.State.{Torrent, piece_count, Session, Answers, Ended, stay, leave}
use loco.Download.Round.{round}
use loco.Download.Loop.{
  PeerRun, new_connection, first_piece_size, start_session, then_session, peer_loop, try_peer,
  download,
}
use loco.Download.Keeps.{Keeps, stays, leaves, Keeps-if, Keeps-and_then}
use loco.Download.Invariant.{IsConsistent, size_of, AllInside, AllChecked, OnFile, Inv}
use loco.Download.Invariant.Steps.{reset-Inv, connection-Inv, handle_message-Inv, request_block-Inv}
use loco.Download.Invariant.Finish.{finish_piece-Inv}

-- Each message that is received has the payload that its length says.
abbrev pub AllWhole : List (Option PeerWireMessage × Answers) → Type 0
AllWhole [] = Unit {0}
AllWhole ((none, a) ∷ rest) = AllWhole rest
AllWhole ((some m, a) ∷ rest) = IsWhole m × AllWhole rest

abbrev pub AllRunsWhole : List PeerRun → Type 0
AllRunsWhole [] = Unit {0}
AllRunsWhole (r ∷ rest) = AllWhole r.rounds × AllRunsWhole rest

module _ (sha1 : Bytes → Bytes) (t : Torrent) (fits : IsConsistent t) where
  round-Inv :
      (a : Answers) (s : Session) (m : PeerWireMessage)
      → IsWhole m
      → Inv sha1 t s
      → Keeps (Inv sha1 t) (round sha1 t a s m)
  unfolding round
  round-Inv a s m whole v =
      Keeps-if m.is_keep_alive (λ _. stays v)
        (λ _. Keeps-and_then sha1 t a (handle_message-Inv sha1 t fits a s m whole v) (λ s1 v1.
          Keeps-and_then sha1 t a (finish_piece-Inv sha1 t fits a s1 v1)
            (request_block-Inv sha1 t fits a)))

  then_session-Inv :
      (e : Ended) (f : Session → Session)
      → Keeps (Inv sha1 t) e
      → ((s : Session) → Inv sha1 t s → Inv sha1 t (f s))
      → Inv sha1 t (then_session sha1 t e f)
  then_session-Inv (stay s) f (stays v) k = k s v
  then_session-Inv (leave s) f (leaves v) k = v

  peer_loop-Inv :
      (rounds : List (Option PeerWireMessage × Answers)) (s : Session)
      → AllWhole rounds
      → Inv sha1 t s
      → Inv sha1 t (peer_loop sha1 t s rounds)
  unfolding peer_loop
  peer_loop-Inv [] s whole v = v
  peer_loop-Inv ((none, a) ∷ rest) s whole v = v
  peer_loop-Inv ((some m, a) ∷ rest) s (w, whole) v =
      then_session-Inv (round sha1 t a s m) (λ s'. peer_loop sha1 t s' rest) (round-Inv a s m w v)
        (λ s' v'. peer_loop-Inv rest s' whole v')

  if-Inv :
      (b : Bool) {x y : Session} → Inv sha1 t x → Inv sha1 t y → Inv sha1 t (if b then x else y)
  if-Inv true v w = v
  if-Inv false v w = w

  try_peer-Inv :
      (s : Session) (r : PeerRun)
      → AllWhole r.rounds
      → Inv sha1 t s
      → Inv sha1 t (try_peer sha1 t s r)
  unfolding try_peer
  try_peer-Inv s r whole v =
      if-Inv r.connected
        (if-Inv r.handshake_success
          (reset-Inv sha1 t fits _
            (peer_loop-Inv r.rounds _ whole (connection-Inv sha1 t fits s new_connection v)))
          (reset-Inv sha1 t fits s v))
        (reset-Inv sha1 t fits s v)

  pub download-Inv :
      (s : Session) (runs : List PeerRun)
      → AllRunsWhole runs
      → Inv sha1 t s
      → Inv sha1 t (download sha1 t s runs)
  unfolding download
  download-Inv s [] whole v = v
  download-Inv s (r ∷ rest) (w, whole) v =
      if-Inv s.download_complete v
        (download-Inv (try_peer sha1 t s r) rest whole (try_peer-Inv s r w v))

  first_size : first_piece_size t ≡ size_of t 0
  unfolding first_piece_size
  first_size = ground (arith, fits.some_piece)

  first_roomy : (n : ℕ) → n ≡ first_piece_size t → (t.normal_piece_size ≤ n) ⊎ (piece_count t ≡ 1)
  unfolding first_piece_size
  first_roomy n e = elim (Bool-cases (piece_count t == 1)) [
    | inl one ↦ inr (ground (arith, one))
    | inr more ↦ inl (ground (arith, e, more))
  ]

  pub start_session-Inv :
      (buffer : Bytes) → length buffer ≡ first_piece_size t → Inv sha1 t (start_session t buffer)
  unfolding start_session
  start_session-Inv buffer e = record {
    sound = record {
      room = omega (arith, e);
      received = omega arith;
      asked_next = λ _. refl;
      asked_inside = λ _. omega arith;
    };
    piece_sized = λ _. first_size;
    roomy = first_roomy (length buffer) e;
    checked = tt;
    done = λ i h. absurd (omega (arith, h));
    complete = λ h. cc;
    inside = tt;
  }

  -- The file gets nothing but checked pieces at their places, whatever the peers send and whatever
  -- the system answers, for a torrent whose length fits its pieces, a buffer for the first piece,
  -- and messages with the payloads that their lengths say.
  pub download-AllChecked :
      (buffer : Bytes) (runs : List PeerRun)
      → length buffer ≡ first_piece_size t
      → AllRunsWhole runs
      → AllChecked sha1 t (download sha1 t (start_session t buffer) runs).file
  download-AllChecked buffer runs e whole =
      let v = download-Inv (start_session t buffer) runs whole (start_session-Inv buffer e) in
      v.checked

  -- A download that says it is complete has written every piece, whole and checked, at its place,
  -- for a torrent whose length fits its pieces, a buffer for the first piece, and messages with the
  -- payloads that their lengths say.
  pub download-OnFile :
      (buffer : Bytes) (runs : List PeerRun)
      → length buffer ≡ first_piece_size t
      → AllRunsWhole runs
      → (download sha1 t (start_session t buffer) runs).download_complete ≡ true
      → (i : ℕ) → i < piece_count t
      → OnFile sha1 t (download sha1 t (start_session t buffer) runs).file i
  download-OnFile buffer runs e whole done i h =
      let v = download-Inv (start_session t buffer) runs whole (start_session-Inv buffer e) in
      v.done i (omega (arith, h, v.complete done))

  -- Every request that is sent asks for a block of at most 16 KiB inside a piece of the torrent, for
  -- a torrent whose length fits its pieces, a buffer for the first piece, and messages with the
  -- payloads that their lengths say.
  pub download-AllInside :
      (buffer : Bytes) (runs : List PeerRun)
      → length buffer ≡ first_piece_size t
      → AllRunsWhole runs
      → AllInside t (download sha1 t (start_session t buffer) runs).requests
  download-AllInside buffer runs e whole =
      let v = download-Inv (start_session t buffer) runs whole (start_session-Inv buffer e) in
      v.inside
