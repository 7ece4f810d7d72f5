-- ===== src/Download/Sockets/Laws.antt =====
-- The messages that a peer's bytes give to the download have payloads of the lengths that they say.
use loco.Tracker.Peers.{Peer}
use loco.Base.{
  ℤ, ◌≡◌, refl, subst, inl, inr, Bool, Bool-cases, Option, List, [], ◌∷◌, ◌++◌, drop-append, Bytes,
  AllBytes, AllBytes-drop, length, if◌then◌else◌,
}
use loco.Peer.Types.{PeerWireMessage, empty_message}
use loco.Peer.Receive.{
  Socket, Reception, got, refused, waiting, receive_peer_wire_message, recv_all, continue_with,
}
use loco.Peer.Receive.Takes.{Takes, takes, refuses, waits, recv_loop-Takes}
use loco.Peer.Receive.Laws.{receive_peer_wire_message_lem}
use loco.Peer.Wire.{validate_handshake_response}
use loco.Peer.Send.{Sending, finished, gave_up, blocked, answer_handshake, handshake_with_peer}
use loco.Download.State.{Answers}
use loco.Download.Invariant.Run.{AllWhole, AllRunsWhole}
use loco.Download.Sockets.{
  Connection, before_rest, messages_from, rounds_after, peer_run, peer_runs,
}

-- What is left of bytes is bytes.
AllBytes-rest : (all w rest : Bytes) → AllBytes all → all ≡ w ++ rest → AllBytes rest
AllBytes-rest all w rest h e =
    subst AllBytes (drop-append w rest) (AllBytes-drop (length w) (w ++ rest) (subst AllBytes e h))

before_rest-AllWhole :
    (granted : Bool) (fd : ℤ) (s : Socket) (a : Answers)
    (rest : Socket → List (Option PeerWireMessage × Answers)) (r : Reception PeerWireMessage)
    → AllBytes s.incoming
    → receive_peer_wire_message granted fd empty_message s ≡ r
    → ((after : Socket) → AllBytes after.incoming → AllWhole (rest after))
    → AllWhole (before_rest r a rest)
before_rest-AllWhole granted fd s a rest (got m after) h e k =
    let (taken, allowed) = receive_peer_wire_message_lem granted fd empty_message m s after h e in
    (allowed.whole, k after (AllBytes-rest s.incoming _ after.incoming h taken))
before_rest-AllWhole granted fd s a rest refused h e k = tt
before_rest-AllWhole granted fd s a rest waiting h e k = tt

messages_from-AllWhole :
    (fd : ℤ) (rounds : List (Bool × Answers)) (s : Socket)
    → AllBytes s.incoming
    → AllWhole (messages_from fd rounds s)
unfolding messages_from
messages_from-AllWhole fd [] s h = tt
messages_from-AllWhole fd ((granted, a) ∷ rounds) s h =
    before_rest-AllWhole granted fd s a (λ after. messages_from fd rounds after)
      (receive_peer_wire_message granted fd empty_message s) h refl
      (λ after rest. messages_from-AllWhole fd rounds after rest)

-- What the handshake leaves of the peer's bytes is bytes.
abbrev LeavesBytes : {A : Type 0} → Reception A → Type 0
LeavesBytes (got u s) = AllBytes s.incoming
LeavesBytes refused = Unit {0}
LeavesBytes waiting = Unit {0}

Takes-LeavesBytes :
    {P : Bytes → Bytes → Type 0} (incoming : Bytes) (r : Reception Bytes)
    → AllBytes incoming
    → Takes P incoming r
    → LeavesBytes r
Takes-LeavesBytes incoming _ h (takes {s} w e p) = AllBytes-rest incoming w s.incoming h e
Takes-LeavesBytes incoming _ h refuses = tt
Takes-LeavesBytes incoming _ h waits = tt

checked-LeavesBytes :
    (info_hash : Bytes) (r : Reception Bytes)
    → LeavesBytes r
    → LeavesBytes (
        continue_with r (λ (response : Bytes) after.
          if validate_handshake_response response info_hash then got tt after else refused))
checked-LeavesBytes info_hash (got response s) h =
    elim (Bool-cases (validate_handshake_response response info_hash)) [
      | inl valid ↦ rw valid h
      | inr invalid ↦ rw invalid tt
    ]
checked-LeavesBytes info_hash refused h = tt
checked-LeavesBytes info_hash waiting h = tt

answer-LeavesBytes :
    (info_hash : Bytes) (s : Socket) (sending : Sending)
    → AllBytes s.incoming
    → LeavesBytes (answer_handshake info_hash s sending).reception
answer-LeavesBytes info_hash s (finished w rest) h =
    checked-LeavesBytes info_hash (recv_all 68 s)
      (Takes-LeavesBytes s.incoming (recv_all 68 s) h (recv_loop-Takes 68 s.incoming s.answers))
answer-LeavesBytes info_hash s (gave_up w) h = tt
answer-LeavesBytes info_hash s (blocked w) h = tt

rounds_after-AllWhole :
    (fd : ℤ) (rounds : List (Bool × Answers)) (r : Reception (Unit {0}))
    → LeavesBytes r
    → AllWhole (rounds_after fd rounds r)
rounds_after-AllWhole fd rounds (got u s) h = messages_from-AllWhole fd rounds s h
rounds_after-AllWhole fd rounds refused h = tt
rounds_after-AllWhole fd rounds waiting h = tt

-- Every peer sends bytes below 256.
abbrev pub AllSendBytes : List Connection → Type 0
AllSendBytes [] = Unit {0}
AllSendBytes (c ∷ cs) = AllBytes c.socket.incoming × AllSendBytes cs

pub peer_runs-AllRunsWhole :
    (info_hash peer_id : Bytes) (cs : List Connection) (ps : List Peer)
    → AllSendBytes cs
    → AllRunsWhole (peer_runs info_hash peer_id cs ps)
unfolding peer_runs peer_run handshake_with_peer
peer_runs-AllRunsWhole info_hash peer_id [] ps h = tt
peer_runs-AllRunsWhole info_hash peer_id (c ∷ cs) [] h = tt
peer_runs-AllRunsWhole info_hash peer_id (c ∷ cs) (p ∷ ps) (h, hs) = (
  rounds_after-AllWhole _ c.rounds _ (answer-LeavesBytes info_hash c.socket _ h),
  peer_runs-AllRunsWhole info_hash peer_id cs ps hs,
)
