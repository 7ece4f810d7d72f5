-- ===== src/Download/State.antt =====
-- src/main.c: what `main` keeps while it downloads, and what its calls of the system answer.
use loco.Base.{ℕ, Bool, List, Bytes, ◌/◌, length}
use loco.Peer.Types.{PeerConnection, PieceDownloadState}

-- What the metadata of the torrent fixes: `pieces` holds 20 bytes of SHA-1 for each piece.
pub record Torrent : Type 0 where
  pub pieces : Bytes
  pub normal_piece_size : ℕ
  pub total_file_size : ℕ

-- `torrent_info->pieces.length / 20`
abbrev pub piece_count : Torrent → ℕ
piece_count t = length t.pieces / 20

-- A call of fwrite: the offset that fseek set, and the bytes that were written there.
pub record FileWrite : Type 0 where
  pub offset : ℕ
  pub bytes : Bytes

-- A request message that was sent.
pub record Request : Type 0 where
  pub index : ℕ
  pub begin : ℕ
  pub length : ℕ

-- `file` lists the writes and `requests` the requests, the latest first.
pub record Session : Type 0 where
  pub piece : PieceDownloadState
  pub connection : PeerConnection
  pub file : List FileWrite
  pub requests : List Request
  pub download_complete : Bool

-- What the system answers in one round of the loop: whether memory for a bitfield is granted,
-- whether fseek succeeds, how many bytes fwrite writes, and whether the two sends succeed.
pub record Answers : Type 0 where
  pub granted : Bool
  pub seek_ok : Bool
  pub written_elements : ℕ
  pub interested_sent : Bool
  pub request_sent : Bool

-- How a round ends: in the next one, or with the connection given up.
pub data Ended : Type 0 where
  stay leave : Session → Ended

abbrev pub session_of : Ended → Session
session_of (stay s) = s
session_of (leave s) = s
