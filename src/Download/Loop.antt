-- ===== src/Download/Loop.antt =====
-- src/main.c: the loop over the messages of a peer, and the loop over the peers.
use loco.Base.{ℕ, Bool, true, false, Option, none, some, List, [], ◌∷◌, Bytes, ◌==◌, if◌then◌else◌}
use loco.Peer.Types.{PeerConnection, PeerWireMessage, reset_piece_state}
use loco.Download.State.{Torrent, piece_count, Session, Answers, Ended, stay, leave}
use loco.Download.Round.{round}

-- What happens with one peer: whether the connection and the handshake succeed, then for each round
-- the message received (none where receiving fails) and the answers of the system.
pub record PeerRun : Type 0 where
  pub connected : Bool
  pub handshake_success : Bool
  pub rounds : List (Option PeerWireMessage × Answers)

abbrev pub new_connection : PeerConnection
new_connection = record {
  peer_piece_bitfield = record { bytes = none; length = 0 };
  peer_choking_us = true;
  we_are_interested = false;
}

abbrev pub reset_session : Session → Session
reset_session s = record s { piece = reset_piece_state s.piece }

-- `malloc(first_piece_size)` gives `piece_buffer`, which holds any bytes.
unfoldable pub first_piece_size : Torrent → ℕ
first_piece_size t = if piece_count t == 1 then t.total_file_size else t.normal_piece_size

unfoldable pub start_session : Torrent → Bytes → Session
unfolding first_piece_size
start_session t piece_buffer = record {
  piece = record {
    piece_index = 0;
    piece_size = first_piece_size t;
    piece_buffer = piece_buffer;
    bytes_received = 0;
    request_pending = false;
    requested_begin = 0;
    requested_length = 0;
  };
  connection = new_connection;
  file = [];
  requests = [];
  download_complete = false;
}

module _ (sha1 : Bytes → Bytes) (t : Torrent) where
  abbrev pub then_session : Ended → (Session → Session) → Session
  then_session (leave s) f = s
  then_session (stay s) f = f s

  -- while (connection_active)
  unfoldable pub peer_loop : Session → List (Option PeerWireMessage × Answers) → Session
  peer_loop s [] = s
  peer_loop s ((none, a) ∷ rest) = s
  peer_loop s ((some m, a) ∷ rest) = then_session (round sha1 t a s m) (λ s'. peer_loop s' rest)

  -- One peer of the list, from connecting to closing the socket.
  unfoldable pub try_peer : Session → PeerRun → Session
  try_peer s r =
      if r.connected
      then (if r.handshake_success
          then reset_session (peer_loop (record s { connection = new_connection }) r.rounds)
          else reset_session s)
      else reset_session s

  -- The loop over the peers, left once the download is complete.
  unfoldable pub download : Session → List PeerRun → Session
  unfolding try_peer
  download s [] = s
  download s (r ∷ rest) =
      let more = download (try_peer s r) rest in if s.download_complete then s else more
