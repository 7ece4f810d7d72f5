-- ===== src/Download/Runs.antt =====
-- A torrent of two pieces, downloaded from one peer after another, and what the theorems say of it.
use loco.Base.{
  ℕ, ◌+◌, ◌%◌, ◌≡◌, refl, ap, true, false, Option, none, some, List, [], ◌∷◌, ◌++◌, Bytes, arith,
  length, replicate,
}
use loco.Peer.Types.{MessageId, PeerWireMessage, reset_piece_state}
use loco.Peer.Wire.{big_endian}
use loco.Peer.Bitfield.{
  set_piece, has_piece, padding_clear, current_bitfield, update_bitfield, bitfield_applied,
}
use loco.Peer.Pieces.{
  determine_piece_info_from_piece_payload, block_accepted, process_incoming_piece_message,
}
use loco.Download.State.{Torrent, Session, Answers}
use loco.Download.Round.{
  handle_message, next_piece_size, advance_piece, write_piece, finish_piece, send_request,
  request_block, round,
}
use loco.Download.Loop.{PeerRun, first_piece_size, start_session, peer_loop, try_peer, download}
use loco.Download.Invariant.{IsConsistent, size_of, AllInside, AllChecked, OnFile}
use loco.Download.Invariant.Sizes.{next_piece_size_lem}
use loco.Download.Invariant.Run.{
  AllRunsWhole, download-AllChecked, download-OnFile, download-AllInside,
}

abbrev sum : Bytes → ℕ
sum [] = 0
sum (b ∷ bs) = b + sum bs

-- Twenty bytes that depend on the content.
abbrev pub hash : Bytes → Bytes
hash bs = replicate 20 (sum bs % 256)

-- The pieces are 1 2 and 3.
abbrev pub torrent : Torrent
torrent = record {
  pieces = replicate 20 3 ++ replicate 20 3;
  normal_piece_size = 2;
  total_file_size = 3;
}

pub torrent-IsConsistent : IsConsistent torrent
torrent-IsConsistent = record {
  some_piece = omega arith;
  reached = omega arith;
  covered = omega arith;
  sized = omega arith;
}

abbrev pub answers : Answers
answers = record {
  granted = true;
  seek_ok = true;
  written_elements = 2;
  interested_sent = true;
  request_sent = true;
}

abbrev message : MessageId → Bytes → PeerWireMessage
message i p = record {
  message_id = i;
  payload = some p;
  payload_length = length p;
  is_keep_alive = false;
}

abbrev payload_size : Option Bytes → ℕ
payload_size none = 0
payload_size (some p) = length p

abbrev block : ℕ → ℕ → Bytes → PeerWireMessage
block piece_index begin bytes =
    message MessageId.piece (big_endian piece_index ++ (big_endian begin ++ bytes))

abbrev step : PeerWireMessage → Option PeerWireMessage × Answers
step m = (some m, answers)

-- The first peer sends one piece with the wrong bytes, the second has the whole file.
abbrev pub runs : List PeerRun
runs =
    record {
      connected = true;
      handshake_success = true;
      rounds =
          step (message MessageId.bitfield (192 ∷ []))
          ∷ step (message MessageId.unchoke [])
          ∷ step (block 0 0 (7 ∷ 7 ∷ []))
          ∷ [];
    }
    ∷ record {
      connected = true;
      handshake_success = true;
      rounds =
          step (message MessageId.unchoke [])
          ∷ step (message MessageId.have (0 ∷ 0 ∷ 0 ∷ 0 ∷ []))
          ∷ step (block 0 0 (1 ∷ 2 ∷ []))
          ∷ [];
    }
    ∷ record {
      connected = true;
      handshake_success = true;
      rounds =
          step (message MessageId.bitfield (64 ∷ []))
          ∷ step (message MessageId.unchoke [])
          ∷ (some (block 1 0 (3 ∷ [])), record answers { written_elements = 1 })
          ∷ [];
    }
    ∷ []

pub runs-AllRunsWhole : AllRunsWhole runs
runs-AllRunsWhole = (
  (λ q e. ap payload_size e, (λ q e. ap payload_size e, (λ q e. ap payload_size e, tt))),
  (
    (λ q e. ap payload_size e, (λ q e. ap payload_size e, (λ q e. ap payload_size e, tt))),
    ((λ q e. ap payload_size e, (λ q e. ap payload_size e, (λ q e. ap payload_size e, tt))), tt),
  ),
)

abbrev buffer : Bytes
buffer = 0 ∷ 0 ∷ []

abbrev final : Session
final = download hash torrent (start_session torrent buffer) runs

-- The second peer's piece 0 is written, then the third's piece 1.
final_file :
    final.file
    ≡ record { offset = 2; bytes = 3 ∷ [] } ∷ record { offset = 0; bytes = 1 ∷ 2 ∷ [] } ∷ []
unfolding first_piece_size start_session peer_loop try_peer download handle_message next_piece_size
    advance_piece write_piece finish_piece send_request request_block round reset_piece_state
    set_piece has_piece padding_clear current_bitfield update_bitfield bitfield_applied
    determine_piece_info_from_piece_payload block_accepted process_incoming_piece_message
final_file = refl

final_complete : final.download_complete ≡ true
unfolding first_piece_size start_session peer_loop try_peer download handle_message next_piece_size
    advance_piece write_piece finish_piece send_request request_block round reset_piece_state
    set_piece has_piece padding_clear current_bitfield update_bitfield bitfield_applied
    determine_piece_info_from_piece_payload block_accepted process_incoming_piece_message
final_complete = refl

room : length buffer ≡ first_piece_size torrent
unfolding first_piece_size
room = refl

download-AllChecked_example : AllChecked hash torrent final.file
download-AllChecked_example =
    download-AllChecked hash torrent torrent-IsConsistent buffer runs room runs-AllRunsWhole

download-OnFile_example : OnFile hash torrent final.file 1
download-OnFile_example =
    download-OnFile hash torrent torrent-IsConsistent buffer runs room runs-AllRunsWhole
      final_complete 1 (omega arith)

download-AllInside_example : AllInside torrent final.requests
download-AllInside_example =
    download-AllInside hash torrent torrent-IsConsistent buffer runs room runs-AllRunsWhole

next_piece_size_lem_example :
    next_piece_size torrent (0 + 1) (size_of torrent 0) ≡ some (size_of torrent (0 + 1))
next_piece_size_lem_example = next_piece_size_lem torrent 0 torrent-IsConsistent (omega arith)
