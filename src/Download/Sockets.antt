-- ===== src/Download/Sockets.antt =====
-- src/main.c: what happens with a peer, from what its socket answers: connecting, the handshake, and the
-- messages that are received in the rounds of the loop.
pub mod Laws
use loco.Tracker.Peers.{Peer}
use loco.Base.{ℕ, ℤ, pos, negsuc, Bool, true, false, Option, none, some, List, [], ◌∷◌, Bytes}
use loco.Peer.Types.{PeerWireMessage, empty_message}
use loco.Peer.Connect.{ConnectAnswers, connect_to_peer}
use loco.Peer.Receive.{Socket, Reception, got, refused, waiting, receive_peer_wire_message}
use loco.Peer.Send.{SendAnswer, handshake_with_peer}
use loco.Download.State.{Answers}
use loco.Download.Loop.{PeerRun}

-- The answers of the system on one connection. Each round has whether memory is granted for the payload
-- of its message, with the other answers.
pub record Connection : Type 0 where
  pub connect : ConnectAnswers
  pub sending : List SendAnswer
  pub socket : Socket
  pub rounds : List (Bool × Answers)

-- The message of a round, in front of those of the rounds behind it; a call of recv that has not come
-- back ends what is known of the connection.
abbrev pub before_rest :
    Reception PeerWireMessage
    → Answers
    → (Socket → List (Option PeerWireMessage × Answers))
    → List (Option PeerWireMessage × Answers)
before_rest (got m s) a rest = (some m, a) ∷ rest s
before_rest refused a rest = (none, a) ∷ []
before_rest waiting a rest = []

-- The message to fill is the empty one in each round, as `free_peer_wire_message` leaves it.
unfoldable pub messages_from :
    ℤ → List (Bool × Answers) → Socket → List (Option PeerWireMessage × Answers)
messages_from file_descriptor [] s = []
messages_from file_descriptor ((granted, a) ∷ rounds) s =
    before_rest (receive_peer_wire_message granted file_descriptor empty_message s) a
      (λ after. messages_from file_descriptor rounds after)

abbrev pub is_open : {A : Type 0} → Option A → Bool
is_open none = false
is_open (some descriptor) = true

-- The descriptor, or -1.
abbrev pub descriptor_of : Option ℕ → ℤ
descriptor_of none = negsuc 0
descriptor_of (some file_descriptor) = pos file_descriptor

abbrev pub has_shaken : Reception (Unit {0}) → Bool
has_shaken (got u s) = true
has_shaken refused = false
has_shaken waiting = false

abbrev pub rounds_after :
    ℤ → List (Bool × Answers) → Reception (Unit {0}) → List (Option PeerWireMessage × Answers)
rounds_after file_descriptor rounds (got u s) = messages_from file_descriptor rounds s
rounds_after file_descriptor rounds refused = []
rounds_after file_descriptor rounds waiting = []

unfoldable pub peer_run : Bytes → Bytes → Peer → Connection → PeerRun
peer_run info_hash peer_id peer c =
    let file_descriptor = (connect_to_peer peer c.connect).0 in
    let h = handshake_with_peer info_hash peer_id c.sending c.socket in
    record {
      connected = is_open file_descriptor;
      handshake_success = has_shaken h.reception;
      rounds = rounds_after (descriptor_of file_descriptor) c.rounds h.reception;
    }

-- One connection for each peer, in order.
unfoldable pub peer_runs : Bytes → Bytes → List Connection → List Peer → List PeerRun
peer_runs info_hash peer_id [] ps = []
peer_runs info_hash peer_id (c ∷ cs) [] = []
peer_runs info_hash peer_id (c ∷ cs) (p ∷ ps) =
    peer_run info_hash peer_id p c ∷ peer_runs info_hash peer_id cs ps
