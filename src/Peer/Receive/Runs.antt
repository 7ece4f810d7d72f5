-- ===== src/Peer/Receive/Runs.antt =====
-- A `have` message that comes in pieces, and what the theorem says of it.
use loco.Base.{pos, ◌≡◌, refl, true, some, [], ◌∷◌, ◌++◌, arith}
use loco.Peer.Types.{MessageId, PeerWireMessage, empty_message}
use loco.Peer.Receive.{
  received, interrupted, Socket, got, message, recv_loop, is_valid_payload_length_for_message,
  receive_payload, receive_body, is_cleared, receive_peer_wire_message,
}
use loco.Peer.Receive.Laws.{IsAllowed, wire_bytes, receive_peer_wire_message_lem}

-- The message `have 9`, and the first byte of the next one.
abbrev socket : Socket
socket = record {
  incoming = 0 ∷ 0 ∷ 0 ∷ 5 ∷ 4 ∷ 0 ∷ 0 ∷ 0 ∷ 9 ∷ 0 ∷ [];
  answers = received 3 ∷ interrupted ∷ received 9 ∷ received 1 ∷ received 2 ∷ received 9 ∷ [];
}

abbrev have_message : PeerWireMessage
have_message = message MessageId.have (some (0 ∷ 0 ∷ 0 ∷ 9 ∷ [])) 4

abbrev rest : Socket
rest = record { incoming = 0 ∷ []; answers = [] }

receive_run : receive_peer_wire_message true (pos 3) empty_message socket ≡ got have_message rest
unfolding recv_loop is_valid_payload_length_for_message receive_payload receive_body is_cleared
    receive_peer_wire_message
receive_run = refl

receive_peer_wire_message_lem_example :
    (socket.incoming ≡ wire_bytes have_message ++ rest.incoming) × IsAllowed have_message
receive_peer_wire_message_lem_example =
    receive_peer_wire_message_lem true (pos 3) empty_message have_message socket rest
      (
        omega arith,
        (
          omega arith,
          (
            omega arith,
            (
              omega arith,
              (
                omega arith,
                (omega arith, (omega arith, (omega arith, (omega arith, (omega arith, tt))))),
              ),
            ),
          ),
        ),
      )
      receive_run
