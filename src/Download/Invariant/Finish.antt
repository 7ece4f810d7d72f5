-- ===== src/Download/Invariant/Finish.antt =====
-- src/main.c: a piece that is checked, written and left keeps the invariant.

use loco.Base.{
  same_bytes, same_bytes_iff, ℕ, ◌+◌, ◌-◌, ◌*◌, ◌/◌, ◌≤◌, ◌<◌, ◌≡◌, refl, sym, ap, subst, ◌∙◌, inl,
  inr, Bool, true, false, not, ◌&&◌, some, ◌∷◌, Bytes, arith, size_max, int64_max, length, take,
  ltb, leb, ◌==◌,
}
use loco.Peer.Types.{PieceDownloadState, reset_piece_state}
use loco.Peer.Pieces.Laws.{IsSound}
use loco.Download.State.{Torrent, piece_count, Session, Answers}
use loco.Download.Round.{
  piece_content, expected_hash, next_piece_size, advance_piece, write_piece, finish_piece,
}
use loco.Download.Keeps.{Keeps, stays, leaves, Keeps-if}
use loco.Download.Invariant.{IsConsistent, size_of, IsPiece, OnFile, Inv}
use loco.Download.Invariant.Sizes.{
  next_piece_size_lem, piece_below, length-take_small, take_whole, below_or_last, size_of-≤,
}
use loco.Download.Invariant.Steps.{reset-Inv}

module _ (sha1 : Bytes → Bytes) (t : Torrent) (fits : IsConsistent t) where
  next-IsSound :
      (p : PieceDownloadState) (n : ℕ)
      → n ≤ length p.piece_buffer
      → IsSound (record (reset_piece_state p) { piece_index = p.piece_index + 1; piece_size = n })
  unfolding reset_piece_state
  next-IsSound p n h = record {
    room = h;
    received = omega arith;
    asked_next = λ _. refl;
    asked_inside = λ _. omega arith;
  }

  -- The next piece is begun, and all that is written is there up to it.
  next-Inv :
      (s : Session) (n : ℕ) (b : Bool)
      → Inv sha1 t s
      → OnFile sha1 t s.file s.piece.piece_index
      → n ≤ length s.piece.piece_buffer
      → (s.piece.piece_index + 1 < piece_count t → n ≡ size_of t (s.piece.piece_index + 1))
      → (b ≡ true → piece_count t ≤ s.piece.piece_index + 1)
      → Inv sha1 t (record s {
        piece = record (reset_piece_state s.piece) {
          piece_index = s.piece.piece_index + 1;
          piece_size = n;
        };
        download_complete = b;
      })
  unfolding reset_piece_state
  next-Inv s n b v w room size complete = record {
    sound = next-IsSound s.piece n room;
    piece_sized = size;
    roomy = v.roomy;
    checked = v.checked;
    done = λ j h. elim (below_or_last j s.piece.piece_index h) [
      | inl below ↦ v.done j below
      | inr same ↦ subst (λ k. OnFile sha1 t s.file k) (sym same) w
    ];
    complete = complete;
    inside = v.inside;
  }

  advance-Inv :
      (s : Session)
      → Inv sha1 t s
      → OnFile sha1 t s.file s.piece.piece_index
      → s.piece.piece_index < piece_count t
      → Keeps (Inv sha1 t) (advance_piece t s)
  unfolding advance_piece reset_piece_state
  advance-Inv s v w h =
      Keeps-if (leb (piece_count t) (s.piece.piece_index + 1))
        (λ last. leaves (
          next-Inv s s.piece.piece_size true v w v.sound.room
            (λ more. absurd (ground (arith, last, more))) (λ _. ground (arith, last))))
        (λ more.
          let below : s.piece.piece_index + 1 < piece_count t = ground (arith, more) in
          let size : next_piece_size t (s.piece.piece_index + 1) s.piece.piece_size
              ≡ some (size_of t (s.piece.piece_index + 1)) =
            ap (next_piece_size t (s.piece.piece_index + 1)) (v.piece_sized h)
            ∙ next_piece_size_lem t s.piece.piece_index fits below in
          rw size (
            stays (
              next-Inv s (size_of t (s.piece.piece_index + 1)) s.download_complete v w (roomy below)
                (λ _. refl) (λ d. omega (arith, v.complete d)))))
    where
      roomy :
          s.piece.piece_index + 1 < piece_count t
          → size_of t (s.piece.piece_index + 1) ≤ length s.piece.piece_buffer
      roomy below = elim v.roomy [
        | inl r ↦ omega (arith, size_of-≤ t (s.piece.piece_index + 1) fits, r)
        | inr one ↦ absurd (omega (arith, below, one))
      ]

  -- What is written is the piece itself, once its hash is the torrent's.
  write-Inv :
      (a : Answers) (s : Session)
      → Inv sha1 t s
      → IsPiece sha1 t s.piece.piece_index (piece_content s.piece)
      → Keeps (Inv sha1 t) (write_piece sha1 t a s)
  unfolding write_piece
  write-Inv a s v d =
      Keeps-if
        (not (s.piece.piece_index == 0) && ltb (size_max / s.piece.piece_index) t.normal_piece_size)
        (λ _. leaves v)
        (λ _.
          Keeps-if (ltb int64_max (s.piece.piece_index * t.normal_piece_size)) (λ _. leaves v)
            (λ _.
              Keeps-if a.seek_ok
                (λ _.
                  Keeps-if (a.written_elements == s.piece.piece_size)
                    (λ all.
                      advance-Inv _ written
                        (record {
                          content = piece_content s.piece;
                          piece = d;
                          written = inl (
                            refl,
                            take_whole _ _ s.piece.piece_buffer (ground (arith, all)) v.sound.room,
                          );
                        })
                        d.index)
                    (λ _. leaves written))
                (λ _. leaves v)))
    where
      written : Inv sha1 t (record s {
        file =
            record {
              offset = s.piece.piece_index * t.normal_piece_size;
              bytes = take a.written_elements (piece_content s.piece);
            }
            ∷ s.file;
      })
      written = record {
        sound = v.sound;
        piece_sized = v.piece_sized;
        roomy = v.roomy;
        checked = (
          record {
            i = s.piece.piece_index;
            content = piece_content s.piece;
            much = a.written_elements;
            piece = d;
            placed = refl;
            part = refl;
          },
          v.checked,
        );
        done = λ j h.
            let f = v.done j h in
            record { content = f.content; piece = f.piece; written = inr f.written };
        complete = v.complete;
        inside = v.inside;
      }

  pub finish_piece-Inv :
      (a : Answers) (s : Session) → Inv sha1 t s → Keeps (Inv sha1 t) (finish_piece sha1 t a s)
  unfolding finish_piece
  finish_piece-Inv a s v =
      Keeps-if (s.piece.bytes_received == s.piece.piece_size)
        (λ _.
          Keeps-if (ltb (length t.pieces - 20) (s.piece.piece_index * 20)) (λ _. leaves v)
            (λ there.
              Keeps-if
                (same_bytes (sha1 (piece_content s.piece)) (expected_hash t s.piece.piece_index))
                (λ same. write-Inv a s v (checked_piece there same))
                (λ _. leaves (reset-Inv sha1 t fits s v))))
        (λ _. stays v)
    where
      checked_piece :
          ltb (length t.pieces - 20) (s.piece.piece_index * 20) ≡ false
          → same_bytes (sha1 (piece_content s.piece)) (expected_hash t s.piece.piece_index) ≡ true
          → IsPiece sha1 t s.piece.piece_index (piece_content s.piece)
      checked_piece there same =
          let below : s.piece.piece_index < piece_count t =
            piece_below (length t.pieces) s.piece.piece_index fits.some_piece there in
          record {
            index = below;
            sized =
                length-take_small s.piece.piece_size s.piece.piece_buffer v.sound.room
                ∙ v.piece_sized below;
            hashed = (same_bytes_iff _ _).0 same;
          }
