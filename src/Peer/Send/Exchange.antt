-- ===== src/Peer/Send/Exchange.antt =====
-- What one end sends, the other end receives: requests, and the handshake.
use loco.Base.{
  ℕ, ◌≤◌, ◌≡◌, refl, sym, ap, ◌∙◌, inl, inr, pos, true, Bool-cases, List, ◌∷◌, ◌++◌, Bytes, arith,
  length, length-append, same_bytes, same_bytes_iff, if◌then◌else◌,
}
use loco.Peer.Types.{MessageId, empty_message}
use loco.Peer.Wire.{big_endian, validate_handshake_response}
use loco.Peer.Wire.Laws.{
  build_request_lem, handshake_head, build_handshake_lem, validate-build_handshake,
}
use loco.Peer.Receive.{
  RecvAnswer, got, refused, receive_peer_wire_message, is_valid_payload_length_for_message,
  recv_loop,
}
use loco.Peer.Receive.Complete.{
  Delivers, message_with, receive_peer_wire_message_complete, recv_loop-Arrives,
}
use loco.Peer.Receive.Complete
use loco.Peer.Send.{SendAnswer, finished, peer_send_request, handshake_with_peer}
use loco.Peer.Send.Laws.{Progresses, calls, send_loop-finished}

-- A request that is sent is received by the code itself as the request with its three numbers, and no
-- byte behind it is taken: no call of send or recv fails, there are as many of each as there are bytes,
-- the array has 17 bytes, and the descriptors are not negative. The receiver has memory granted for the
-- payload, and its message to fill is the empty one.
pub peer_send_request-received :
    (request_buffer : Bytes) (file_descriptor receiver piece_index begin len : ℕ) (more : Bytes)
    (sending : List SendAnswer) (receiving : List RecvAnswer)
    → length request_buffer ≡ 17
    → Progresses sending
    → 17 ≤ calls sending
    → Delivers receiving
    → 17 ≤ Complete.calls receiving
    → (w : Bytes) × (rest : List SendAnswer) × (rest' : List RecvAnswer) × (peer_send_request
          request_buffer
          (pos file_descriptor)
          piece_index
          begin
          len
          sending
        ≡ finished w rest)
      × (receive_peer_wire_message true
            (pos receiver)
            empty_message
            (record { incoming = w ++ more; answers = receiving })
          ≡ got
              (message_with MessageId.request
                (big_endian piece_index ++ (big_endian begin ++ big_endian len)))
              (record { incoming = more; answers = rest' }))
unfolding peer_send_request is_valid_payload_length_for_message
peer_send_request-received buffer fd receiver i b l more sending receiving h ps enough ds enough' =
    let numbers = big_endian i ++ (big_endian b ++ big_endian l) in
    let (rest, e) = send_loop-finished (big_endian 13 ++ 6 ∷ numbers) sending ps enough in
    let (rest', e') =
      receive_peer_wire_message_complete receiver MessageId.request numbers more receiving refl
        (omega arith) ds enough' in
    (big_endian 13 ++ 6 ∷ numbers, rest, rest', rw (build_request_lem buffer i b l h) e, e')

-- The check of a handshake compares the info hashes.
check_handshake :
    (sent expected peer_id : Bytes)
    → length sent ≡ 20
    → length peer_id ≡ 20
    → validate_handshake_response (handshake_head ++ (sent ++ peer_id)) expected
      ≡ same_bytes sent expected
check_handshake sent expected peer_id hs hp =
    let (accepts, agrees) =
      validate-build_handshake sent expected peer_id _ hs hp
        (build_handshake_lem sent peer_id hs hp) in
    elim (Bool-cases (same_bytes sent expected)) [
      | inl same ↦ agrees ((same_bytes_iff sent expected).0 same) ∙ sym same
      | inr other ↦
          elim (Bool-cases
            (validate_handshake_response (handshake_head ++ (sent ++ peer_id)) expected)) [
              | inl valid ↦ absurd (cc ((same_bytes_iff sent expected).1 (accepts valid), other))
              | inr invalid ↦ invalid ∙ sym other
            ]
    ]

-- Two ends that run this code shake hands exactly when their info hashes agree: no call of send or recv
-- fails, there are as many of each as a handshake has bytes, and info hashes and peer ids have 20 bytes.
pub handshake_with_peer_lem :
    (info_hash peer_id their_hash their_id more : Bytes) (sending : List SendAnswer)
    (receiving : List RecvAnswer)
    → length info_hash ≡ 20
    → length peer_id ≡ 20
    → length their_hash ≡ 20
    → length their_id ≡ 20
    → Progresses sending
    → 68 ≤ calls sending
    → Delivers receiving
    → 68 ≤ Complete.calls receiving
    → (rest : List RecvAnswer) × (handshake_with_peer info_hash peer_id sending (record {
      incoming = (handshake_head ++ (their_hash ++ their_id)) ++ more;
      answers = receiving;
    })
        ≡ record {
          sent = handshake_head ++ (info_hash ++ peer_id);
          reception =
              if same_bytes their_hash info_hash
              then got tt (record { incoming = more; answers = rest })
              else refused;
        })
unfolding handshake_with_peer
handshake_with_peer_lem h i th ti more sending receiving hh hi hth hti ps enough ds enough' =
    let ours = handshake_head ++ (h ++ i) in
    let theirs = handshake_head ++ (th ++ ti) in
    let (_, sent) =
      send_loop-finished ours sending ps (omega (arith, length-append h i, hh, hi, enough)) in
    let size : length theirs ≡ 68 = omega (arith, length-append th ti, hth, hti) in
    let a = recv_loop-Arrives theirs more receiving ds (omega (arith, size, enough')) in
    let run : recv_loop 68 (theirs ++ more) receiving
        ≡ got theirs (record { incoming = more; answers = a.rest }) =
      ap (λ n. recv_loop n (theirs ++ more) receiving) (sym size) ∙ a.run in
    (a.rest, rw (build_handshake_lem h i hh hi, sent, run, check_handshake th h ti hth hti) refl)
