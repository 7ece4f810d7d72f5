-- ===== src/Peer/Send/Runs.antt =====
-- A request and a handshake that are sent in pieces, and what the theorems say of them.
use loco.Base.{
  ℕ, zero, suc, ◌≡◌, refl, pos, true, List, [], ◌∷◌, ◌++◌, Bytes, arith, replicate, same_bytes,
  if◌then◌else◌,
}
use loco.Peer.Types.{MessageId, empty_message}
use loco.Peer.Wire.{big_endian, build_request}
use loco.Peer.Wire.Laws.{handshake_head}
use loco.Peer.Receive.{
  RecvAnswer, received, got, refused, receive_peer_wire_message,
  is_valid_payload_length_for_message,
}
use loco.Peer.Receive.Laws.{id_byte}
use loco.Peer.Receive.Complete.{Delivers, message_with, receive_peer_wire_message_complete}
use loco.Peer.Send.{
  SendAnswer, accepted, interrupted, broken, finished, gave_up, send_loop, peer_send_request,
  handshake_with_peer,
}
use loco.Peer.Send.Laws.{Sends, Progresses, send_loop-finished, peer_send_request-Sends}
use loco.Peer.Send.Exchange.{peer_send_request-received, handshake_with_peer_lem}

abbrev request : Bytes
request = 0 ∷ 0 ∷ 0 ∷ 13 ∷ 6 ∷ 0 ∷ 0 ∷ 1 ∷ 2 ∷ 0 ∷ 0 ∷ 64 ∷ 0 ∷ 0 ∷ 0 ∷ 64 ∷ 0 ∷ []

sent_run :
    peer_send_request
      (replicate 17 7)
      (pos 3)
      258
      16384
      16384
      (accepted 5 ∷ interrupted ∷ accepted 90 ∷ broken ∷ [])
    ≡ finished request (broken ∷ [])
unfolding peer_send_request build_request send_loop
sent_run = refl

broken_run :
    peer_send_request (replicate 17 7) (pos 3) 258 16384 16384 (accepted 4 ∷ broken ∷ [])
    ≡ gave_up (0 ∷ 0 ∷ 0 ∷ 13 ∷ [])
unfolding peer_send_request build_request send_loop
broken_run = refl

peer_send_request-Sends_example :
    Sends
      (big_endian 13 ++ 6 ∷ (big_endian 258 ++ (big_endian 16384 ++ big_endian 16384)))
      (peer_send_request (replicate 17 7) (pos 3) 258 16384 16384 (accepted 4 ∷ broken ∷ []))
peer_send_request-Sends_example =
    peer_send_request-Sends (replicate 17 7) 3 258 16384 16384 (accepted 4 ∷ broken ∷ []) refl

send_loop-finished_example :
    (rest : List SendAnswer) × (send_loop (1 ∷ 2 ∷ []) (accepted 1 ∷ interrupted ∷ accepted 9 ∷ [])
      ≡ finished (1 ∷ 2 ∷ []) rest)
send_loop-finished_example =
    send_loop-finished (1 ∷ 2 ∷ []) (accepted 1 ∷ interrupted ∷ accepted 9 ∷ [])
      (omega arith, (omega arith, tt)) (omega arith)

-- One byte at a time.
abbrev single_sends : List SendAnswer
single_sends = replicate 68 (accepted 1)

abbrev single_receives : List RecvAnswer
single_receives = replicate 68 (received 1)

single-Delivers : (n : ℕ) → Delivers (replicate n (received 1))
single-Delivers zero = tt
single-Delivers (suc n) = (omega arith, single-Delivers n)

single-Progresses : (n : ℕ) → Progresses (replicate n (accepted 1))
single-Progresses zero = tt
single-Progresses (suc n) = (omega arith, single-Progresses n)

receive_peer_wire_message_complete_example :
    (rest : List RecvAnswer) × (receive_peer_wire_message true (pos 3) empty_message (record {
      incoming = big_endian 5 ++ id_byte MessageId.have ∷ (big_endian 9 ++ 7 ∷ []);
      answers = single_receives;
    })
      ≡ got
          (message_with MessageId.have (big_endian 9))
          (record { incoming = 7 ∷ []; answers = rest }))
unfolding is_valid_payload_length_for_message
receive_peer_wire_message_complete_example =
    receive_peer_wire_message_complete 3 MessageId.have (big_endian 9) (7 ∷ []) single_receives refl
      (omega arith) (single-Delivers 68) (omega arith)

peer_send_request-received_example :
    (w : Bytes) × (rest : List SendAnswer) × (rest' : List RecvAnswer) × (peer_send_request
        (replicate 17 7)
        (pos 3)
        258
        16384
        16384
        single_sends
      ≡ finished w rest)
    × (receive_peer_wire_message true
          (pos 3)
          empty_message
          (record { incoming = w ++ 7 ∷ []; answers = single_receives })
        ≡ got
            (message_with MessageId.request
              (big_endian 258 ++ (big_endian 16384 ++ big_endian 16384)))
            (record { incoming = 7 ∷ []; answers = rest' }))
peer_send_request-received_example =
    peer_send_request-received (replicate 17 7) 3 3 258 16384 16384 (7 ∷ []) single_sends
      single_receives refl (single-Progresses 68) (omega arith) (single-Delivers 68) (omega arith)

abbrev hash : ℕ → Bytes
hash b = replicate 20 b

handshake_with_peer_lem_example :
    (rest : List RecvAnswer) × (handshake_with_peer (hash 5) (hash 9) single_sends (record {
      incoming = (handshake_head ++ (hash 6 ++ hash 8)) ++ 7 ∷ [];
      answers = single_receives;
    })
      ≡ record {
        sent = handshake_head ++ (hash 5 ++ hash 9);
        reception =
            if same_bytes (hash 6) (hash 5)
            then got tt (record { incoming = 7 ∷ []; answers = rest })
            else refused;
      })
handshake_with_peer_lem_example =
    handshake_with_peer_lem (hash 5) (hash 9) (hash 6) (hash 8) (7 ∷ []) single_sends
      single_receives refl refl refl refl (single-Progresses 68) (omega arith) (single-Delivers 68)
      (omega arith)
