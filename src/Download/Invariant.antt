-- ===== src/Download/Invariant.antt =====
-- What holds of the download at every moment, whatever the peers send.
pub mod Steps
pub mod Sizes
pub mod Finish
pub mod Run
use loco.Base.{
  ℕ, zero, suc, ◌+◌, ◌-◌, ◌*◌, ◌/◌, ◌≤◌, ◌<◌, ◌≡◌, refl, sym, ap, subst, ◌∙◌, ◌⊎◌, inl, inr, Bool,
  true, false, List, [], ◌∷◌, Bytes, arith, tests, size_max, length, take, length-take, ◌==◌,
  if◌then◌else◌,
}
use loco.Peer.Types.{PieceDownloadState}
use loco.Peer.Pieces.Laws.{IsSound}
use loco.Download.State.{Torrent, piece_count, FileWrite, Request, Session}
use loco.Download.Round.{block_size, expected_hash}

-- The length of the file fits the number of its pieces.
pub record IsConsistent (t : Torrent) : Type 0 where
  pub some_piece : 0 < piece_count t
  pub reached : t.normal_piece_size * (piece_count t - 1) ≤ t.total_file_size
  pub covered : t.total_file_size ≤ t.normal_piece_size * (piece_count t - 1) + t.normal_piece_size
  pub sized : t.total_file_size ≤ size_max

-- The size of each piece: the last one takes what is left.
abbrev pub size_of : Torrent → ℕ → ℕ
size_of t i =
    if i == piece_count t - 1
    then t.total_file_size - t.normal_piece_size * (piece_count t - 1)
    else t.normal_piece_size

abbrev pub HasWrite : List FileWrite → ℕ → Bytes → Type 0
HasWrite [] offset d = ⊥
HasWrite (w ∷ ws) offset d = ((w.offset ≡ offset) × (w.bytes ≡ d)) ⊎ HasWrite ws offset d

-- A request for a block inside a piece of the torrent, of at most 16 KiB.
pub record IsInside (t : Torrent) (r : Request) : Type 0 where
  pub index_in_range : r.index < piece_count t
  pub block_in_piece : r.begin + r.length ≤ size_of t r.index
  pub block_small : r.length ≤ block_size

abbrev pub AllInside : Torrent → List Request → Type 0
AllInside t [] = Unit {0}
AllInside t (r ∷ rs) = IsInside t r × AllInside t rs

module _ (sha1 : Bytes → Bytes) (t : Torrent) where
  -- The content of a piece as the torrent has it: its length and its hash.
  pub record IsPiece (i : ℕ) (d : Bytes) : Type 0 where
    pub index : i < piece_count t
    pub sized : length d ≡ size_of t i
    pub hashed : sha1 d ≡ expected_hash t i

  -- A write puts the first bytes of a checked piece at the place of that piece.
  pub record IsChecked (w : FileWrite) : Type 0 where
    pub i : ℕ
    pub content : Bytes
    pub much : ℕ
    pub piece : IsPiece i content
    pub placed : w.offset ≡ i * t.normal_piece_size
    pub part : w.bytes ≡ take much content

  abbrev pub AllChecked : List FileWrite → Type 0
  AllChecked [] = Unit {0}
  AllChecked (w ∷ ws) = IsChecked w × AllChecked ws

  -- The whole of a piece, checked, has been written at its place.
  pub record OnFile (file : List FileWrite) (i : ℕ) : Type 0 where
    pub content : Bytes
    pub piece : IsPiece i content
    pub written : HasWrite file (i * t.normal_piece_size) content

  pub record Inv (s : Session) : Type 0 where
    pub sound : IsSound s.piece
    pub piece_sized :
        s.piece.piece_index < piece_count t → s.piece.piece_size ≡ size_of t s.piece.piece_index
    pub roomy : t.normal_piece_size ≤ length s.piece.piece_buffer ⊎ (piece_count t ≡ 1)
    pub checked : AllChecked s.file
    pub done : (i : ℕ) → i < s.piece.piece_index → OnFile s.file i
    pub complete : s.download_complete ≡ true → piece_count t ≤ s.piece.piece_index
    pub inside : AllInside t s.requests
