-- ===== src/Peer/Receive/Complete.antt =====
-- A message that the peer sends is received, however recv cuts it: the loops of
-- `receive_peer_wire_message` come to an end.
use loco.Base.{
  pos, ℕ, zero, suc, ◌+◌, ◌-◌, ◌≤◌, ◌≡◌, refl, ap, ◌∙◌, true, false, none, some, List, [], ◌∷◌,
  ◌++◌, Bytes, arith, take, drop, length, length-take, length-drop, take-append-drop, ltb, leb,
  ◌==◌,
}
use loco.Peer.Types.{MessageId, PeerWireMessage, empty_message}
use loco.Peer.Wire.{big_endian}
use loco.Peer.Wire.Laws.{from_big_endian-big_endian}
use loco.Peer.Receive.{
  RecvAnswer, received, closed, interrupted, broken, got, prepend, recv_loop, message,
  message_id_of, max_payload_length, is_valid_payload_length_for_message, receive_payload,
  receive_body, is_cleared, receive_peer_wire_message,
}
use loco.Peer.Receive.Laws.{id_byte}

-- No call of recv fails or takes nothing.
abbrev pub Delivers : List RecvAnswer → Type 0
Delivers [] = Unit {0}
Delivers (received k ∷ rest) = (1 ≤ k) × Delivers rest
Delivers (interrupted ∷ rest) = Delivers rest
Delivers (closed ∷ rest) = ⊥
Delivers (broken ∷ rest) = ⊥

-- How many calls of recv are not interrupted.
abbrev pub calls : List RecvAnswer → ℕ
calls [] = 0
calls (received k ∷ rest) = suc (calls rest)
calls (interrupted ∷ rest) = calls rest
calls (closed ∷ rest) = calls rest
calls (broken ∷ rest) = calls rest

take_both : (k : ℕ) (bs more : Bytes) → take (length bs) (take k (bs ++ more)) ≡ take k bs
take_both zero [] more = refl
take_both (suc k) [] more = refl
take_both zero (b ∷ bs) more = refl
take_both (suc k) (b ∷ bs) more = ap (λ t. b ∷ t) (take_both k bs more)

drop_both : (k : ℕ) (bs more : Bytes) → drop (length (take k bs)) (bs ++ more) ≡ drop k bs ++ more
drop_both zero bs more = refl
drop_both (suc k) [] more = refl
drop_both (suc k) (b ∷ bs) more = drop_both k bs more

none_left :
    (more : Bytes) (answers : List RecvAnswer)
    → recv_loop 0 more answers ≡ got [] (record { incoming = more; answers = answers })
unfolding recv_loop
none_left more [] = refl
none_left more (received k ∷ rest) = refl
none_left more (closed ∷ rest) = refl
none_left more (interrupted ∷ rest) = refl
none_left more (broken ∷ rest) = refl

recv_step :
    (k b : ℕ) (bs more : Bytes) (rest : List RecvAnswer)
    → recv_loop (suc (length bs)) (b ∷ (bs ++ more)) (received (suc k) ∷ rest)
      ≡ prepend (b ∷ take k bs) (recv_loop (length (drop k bs)) (drop k bs ++ more) rest)
unfolding recv_loop
recv_step k b bs more rest =
    let needed : (suc (length bs) == 0) ≡ false = ground arith in
    let some_taken : (suc (length (take k bs)) == 0) ≡ false = ground arith in
    let missing : suc (length bs) - suc (length (take k bs)) ≡ length (drop k bs) =
      omega (arith, length-take k bs, length-drop k bs) in
    rw (needed, take_both k bs more, some_taken, missing, drop_both k bs more) refl

recv_again :
    (b : ℕ) (bs more : Bytes) (rest : List RecvAnswer)
    → recv_loop (suc (length bs)) (b ∷ (bs ++ more)) (interrupted ∷ rest)
      ≡ recv_loop (suc (length bs)) (b ∷ (bs ++ more)) rest
unfolding recv_loop
recv_again b bs more rest =
    let needed : (suc (length bs) == 0) ≡ false = ground arith in rw needed refl

-- What is left after some bytes were received, from which the next ones can be.
pub record Arrives (needed : ℕ) (w more : Bytes) (answers : List RecvAnswer) : Type 0 where
  pub rest : List RecvAnswer
  pub run :
      recv_loop needed (w ++ more) answers ≡ got w (record { incoming = more; answers = rest })
  pub delivers : Delivers rest
  pub enough : calls answers ≤ calls rest + length w

pub recv_loop-Arrives :
    (w more : Bytes) (answers : List RecvAnswer)
    → Delivers answers
    → length w ≤ calls answers
    → Arrives (length w) w more answers
recv_loop-Arrives [] more answers h fits = record {
  rest = answers;
  run = none_left more answers;
  delivers = h;
  enough = omega arith;
}
recv_loop-Arrives (b ∷ bs) more [] h fits = absurd (omega (arith, fits))
recv_loop-Arrives (b ∷ bs) more (received zero ∷ rest) (positive, h) fits =
    absurd (omega (arith, positive))
recv_loop-Arrives (b ∷ bs) more (received (suc k) ∷ rest) (positive, h) fits =
    let a = recv_loop-Arrives (drop k bs) more rest h (omega (arith, fits, length-drop k bs)) in
    record {
      rest = a.rest;
      run =
          recv_step k b bs more rest
          ∙ ap (prepend (b ∷ take k bs)) a.run
          ∙ ap (λ w. got (b ∷ w) (record { incoming = more; answers = a.rest }))
              (take-append-drop k bs);
      delivers = a.delivers;
      enough = omega (arith, a.enough, length-drop k bs);
    }
recv_loop-Arrives (b ∷ bs) more (interrupted ∷ rest) h fits =
    let a = recv_loop-Arrives (b ∷ bs) more rest h fits in
    record {
      rest = a.rest;
      run = recv_again b bs more rest ∙ a.run;
      delivers = a.delivers;
      enough = a.enough;
    }
recv_loop-Arrives (b ∷ bs) more (closed ∷ rest) h fits = absurd h
recv_loop-Arrives (b ∷ bs) more (broken ∷ rest) h fits = absurd h

-- The message of an id with a payload; no block is asked for where it is empty.
abbrev pub message_with : MessageId → Bytes → PeerWireMessage
message_with i [] = message i none 0
message_with i (b ∷ bs) = message i (some (b ∷ bs)) (suc (length bs))

-- A byte that is an id, where a payload of some length is allowed for it.
known_id :
    (n : ℕ) (i : MessageId)
    → is_valid_payload_length_for_message n i ≡ true
    → (leb 9 (id_byte i) ≡ false) × (message_id_of (id_byte i) ≡ i)
unfolding is_valid_payload_length_for_message
known_id n MessageId.choke h = (refl, refl)
known_id n MessageId.unchoke h = (refl, refl)
known_id n MessageId.interested h = (refl, refl)
known_id n MessageId.not_interested h = (refl, refl)
known_id n MessageId.have h = (refl, refl)
known_id n MessageId.bitfield h = (refl, refl)
known_id n MessageId.request h = (refl, refl)
known_id n MessageId.piece h = (refl, refl)
known_id n MessageId.cancel h = (refl, refl)
known_id n MessageId.invalid h = absurd (cc h)

receive_payload_complete :
    (i : MessageId) (p more : Bytes) (answers : List RecvAnswer)
    → Delivers answers
    → length p ≤ calls answers
    → (rest : List RecvAnswer) × (receive_payload true i
          (length p)
          (record { incoming = p ++ more; answers = answers })
        ≡ got (message_with i p) (record { incoming = more; answers = rest }))
unfolding receive_payload
receive_payload_complete i [] more answers h fits = (answers, refl)
receive_payload_complete i (b ∷ bs) more answers h fits =
    let a = recv_loop-Arrives (b ∷ bs) more answers h fits in
    let some_payload : (suc (length bs) == 0) ≡ false = ground arith in
    (a.rest, rw some_payload (rw a.run refl))

-- A message whose payload has a length that its id allows, and of at most 1 MiB (1048576 bytes), is
-- received, and no byte behind it is taken: no call of recv fails, there are as many of them as the
-- message has bytes, memory is granted, the descriptor is not negative, and the message to fill is the
-- empty one.
pub receive_peer_wire_message_complete :
    (file_descriptor : ℕ) (i : MessageId) (p more : Bytes) (answers : List RecvAnswer)
    → is_valid_payload_length_for_message (length p) i ≡ true
    → length p ≤ max_payload_length
    → Delivers answers
    → length p + 5 ≤ calls answers
    → (rest : List RecvAnswer) × (receive_peer_wire_message true
          (pos file_descriptor)
          empty_message
          (record {
            incoming = big_endian (length p + 1) ++ id_byte i ∷ (p ++ more);
            answers = answers;
          })
        ≡ got (message_with i p) (record { incoming = more; answers = rest }))
unfolding receive_peer_wire_message receive_body is_cleared
receive_peer_wire_message_complete file_descriptor i p more answers valid small h fits =
    let n = length p + 1 in
    let a =
      recv_loop-Arrives (big_endian n) (id_byte i ∷ (p ++ more)) answers h (omega (arith, fits)) in
    let b =
      recv_loop-Arrives (id_byte i ∷ []) (p ++ more) a.rest a.delivers
        (omega (arith, a.enough, fits)) in
    let (rest, e) =
      receive_payload_complete i p more b.rest b.delivers
        (omega (arith, a.enough, b.enough, fits)) in
    let (known, same_id) = known_id (length p) i valid in
    let prefix = from_big_endian-big_endian n (omega (arith, small)) in
    let some_length : (n == 0) ≡ false = ground arith in
    let payload : n - 1 ≡ length p = omega arith in
    let bounded : ltb max_payload_length (length p) ≡ false = ground (arith, small) in
    (
      rest,
      rw a.run
          (rw (prefix, some_length) (rw b.run (rw (known, payload, same_id, bounded, valid) e))),
    )
