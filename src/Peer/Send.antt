-- ===== src/Peer/Send.antt =====
-- src/peer_connection.c: the loops that send a message, over what the system's `send` answers.
pub mod Exchange
pub mod Laws
pub mod Runs
use loco.Base.{
  ℕ, zero, suc, ◌+◌, ℤ, pos, negsuc, Bool, true, false, Option, none, some, List, [], ◌∷◌, ◌++◌,
  Bytes, take, drop, length, replicate, ◌==◌, if◌then◌else◌,
}
use loco.Peer.Wire.{
  handshake_bytes_length, build_request, build_interested, build_handshake,
  validate_handshake_response,
}
use loco.Peer.Receive.{Socket, Reception, got, refused, waiting, continue_with, recv_all}

-- What one call of send does: it accepts at most so many bytes (0 is a return of 0), or is interrupted
-- by a signal (EINTR), or fails.
pub data SendAnswer : Type 0 where
  accepted : ℕ → SendAnswer
  interrupted broken : SendAnswer

-- How sending ends, with the bytes that send accepted: `finished` is the return of true, with the answers
-- that are left, `gave_up` that of false; `blocked` is a call of send that has not come back.
pub data Sending : Type 0 where
  finished : Bytes → List SendAnswer → Sending
  gave_up blocked : Bytes → Sending

abbrev pub sent_before : Bytes → Sending → Sending
sent_before d (finished w rest) = finished (d ++ w) rest
sent_before d (gave_up w) = gave_up (d ++ w)
sent_before d (blocked w) = blocked (d ++ w)

-- The loops `while (send_total < …)`, from the bytes of the buffer that are not sent yet.
unfoldable pub send_loop : Bytes → List SendAnswer → Sending
send_loop buffer [] = if length buffer == 0 then finished [] [] else blocked []
send_loop buffer (accepted k ∷ rest) =
    let more = send_loop (drop k buffer) rest in
    if length buffer == 0
    then finished [] (accepted k ∷ rest)
    else if k == 0
    then gave_up []
    else sent_before (take k buffer) more
send_loop buffer (interrupted ∷ rest) =
    let more = send_loop buffer rest in
    if length buffer == 0 then finished [] (interrupted ∷ rest) else more
send_loop buffer (broken ∷ rest) =
    if length buffer == 0 then finished [] (broken ∷ rest) else gave_up []

-- A message that could not be built is not sent.
abbrev pub send_built : Option Bytes → List SendAnswer → Sending
send_built none answers = gave_up []
send_built (some buffer) answers = send_loop buffer answers

-- The array of the request starts out with any bytes.
unfoldable pub peer_send_request : Bytes → ℤ → ℕ → ℕ → ℕ → List SendAnswer → Sending
peer_send_request request_buffer (negsuc n) piece_index begin len answers = gave_up []
peer_send_request request_buffer (pos n) piece_index begin len answers =
    send_built (build_request request_buffer piece_index begin len) answers

unfoldable pub peer_send_interested : Bytes → ℤ → List SendAnswer → Sending
peer_send_interested buffer (negsuc n) answers = gave_up []
peer_send_interested buffer (pos n) answers = send_built (build_interested buffer) answers

-- What came of a handshake: the bytes sent, and how its answer was received.
pub record Handshake : Type 0 where
  pub sent : Bytes
  pub reception : Reception (Unit {0})

-- The answer is received and checked once all was sent.
abbrev pub receive_handshake : Bytes → Socket → Reception (Unit {0})
receive_handshake info_hash s =
    continue_with (recv_all handshake_bytes_length s) λ (response : Bytes) after.
      if validate_handshake_response response info_hash then got tt after else refused

abbrev pub answer_handshake : Bytes → Socket → Sending → Handshake
answer_handshake info_hash s (finished w rest) = record {
  sent = w;
  reception = receive_handshake info_hash s;
}
answer_handshake info_hash s (gave_up w) = record { sent = w; reception = refused }
answer_handshake info_hash s (blocked w) = record { sent = w; reception = waiting }

unfoldable pub handshake_with_peer : Bytes → Bytes → List SendAnswer → Socket → Handshake
handshake_with_peer info_hash peer_id answers s =
    answer_handshake info_hash s
      (send_built (build_handshake info_hash peer_id handshake_bytes_length) answers)
