-- ===== src/Peer/Receive/Laws.antt =====
-- A message that is received is the one that the peer has sent.
use loco.Base.{
  ℤ, pos, negsuc, AllBytes, AllBytes-append, ℕ, zero, suc, ◌+◌, ◌-◌, ◌/◌, ◌%◌, ◌^◌, ◌≤◌, ◌<◌, ◌≡◌,
  refl, sym, ap, subst, ◌∙◌, Bool, true, false, not, ◌||◌, Option, none, some, [], ◌∷◌, ◌++◌,
  append-nil, Bytes, arith, get_or, length, ltb, leb, ◌==◌, ==_iff, if◌then◌else◌,
}
use loco.Peer.Types.{MessageId, PeerWireMessage}
use loco.Peer.Wire.{big_endian, from_big_endian}
use loco.Peer.Pieces.Laws.{IsWhole}
use loco.Peer.Receive.{
  Socket, got, max_payload_length, is_valid_payload_length_for_message, message_id_of,
  receive_payload, receive_body, is_cleared, receive_peer_wire_message,
}
use loco.Peer.Receive.Takes.{
  Takes, takes, refuses, Takes-behind, Takes-continue, Takes-map, Takes-choice, recv_loop-Takes,
  Takes-got,
}

-- The byte that stands for an id on the wire.
abbrev pub id_byte : MessageId → ℕ
id_byte MessageId.choke = 0
id_byte MessageId.unchoke = 1
id_byte MessageId.interested = 2
id_byte MessageId.not_interested = 3
id_byte MessageId.have = 4
id_byte MessageId.bitfield = 5
id_byte MessageId.request = 6
id_byte MessageId.piece = 7
id_byte MessageId.cancel = 8
id_byte MessageId.invalid = 9

abbrev pub payload_bytes : Option Bytes → Bytes
payload_bytes none = []
payload_bytes (some p) = p

-- A message as the protocol lays it down: its length in four bytes, its id, its payload; the
-- message that keeps the connection alive is a length of zero.
abbrev pub wire_bytes : PeerWireMessage → Bytes
wire_bytes m =
    if m.is_keep_alive
    then big_endian 0
    else big_endian (m.payload_length + 1) ++ id_byte m.message_id ∷ payload_bytes m.payload

-- A message whose payload has the length that it says and that its id allows.
pub record IsAllowed (m : PeerWireMessage) : Type 0 where
  pub whole : IsWhole m
  pub valid :
      m.is_keep_alive ≡ false
      → is_valid_payload_length_for_message m.payload_length m.message_id ≡ true
  pub bounded : m.payload_length ≤ max_payload_length

-- The bytes behind the length.
record Body (prefix_length : ℕ) (m : PeerWireMessage) (w : Bytes) : Type 0 where
  written : w ≡ id_byte m.message_id ∷ payload_bytes m.payload
  sized : m.payload_length + 1 ≡ prefix_length
  live : m.is_keep_alive ≡ false
  allowed : IsAllowed m

id_byte-message_id_of : (n : ℕ) → n < 9 → id_byte (message_id_of n) ≡ n
id_byte-message_id_of zero h = refl
id_byte-message_id_of (suc zero) h = refl
id_byte-message_id_of (suc (suc zero)) h = refl
id_byte-message_id_of (suc (suc (suc zero))) h = refl
id_byte-message_id_of (suc (suc (suc (suc zero)))) h = refl
id_byte-message_id_of (suc (suc (suc (suc (suc zero))))) h = refl
id_byte-message_id_of (suc (suc (suc (suc (suc (suc zero)))))) h = refl
id_byte-message_id_of (suc (suc (suc (suc (suc (suc (suc zero))))))) h = refl
id_byte-message_id_of (suc (suc (suc (suc (suc (suc (suc (suc zero)))))))) h = refl
id_byte-message_id_of (suc (suc (suc (suc (suc (suc (suc (suc (suc n))))))))) h =
    absurd (omega arith)

single : (b : Bytes) → length b ≡ 1 → b ≡ get_or b 0 0 ∷ []
single (x ∷ []) h = refl
single [] h = absurd (omega arith)
single (x ∷ y ∷ b) h = absurd (omega arith)

receive_payload-Takes :
    (granted : Bool) (i : MessageId) (n : ℕ) (s : Socket)
    → n ≤ max_payload_length
    → is_valid_payload_length_for_message n i ≡ true
    → Takes (λ m w. Body (n + 1) m (id_byte i ∷ w)) s.incoming (receive_payload granted i n s)
unfolding receive_payload
receive_payload-Takes granted i n s h ok =
    Takes-choice (n == 0) _ _
      (λ none_left. takes [] refl (record {
        written = refl;
        sized = ap (λ k. k + 1) (sym ((==_iff n 0).0 none_left));
        live = refl;
        allowed = record {
          whole = λ p e. cc;
          valid = λ _.
              subst (λ k. is_valid_payload_length_for_message k i ≡ true) ((==_iff n 0).0 none_left)
                ok;
          bounded = omega arith;
        };
      }))
      (λ some_left.
        Takes-choice granted _ _
          (λ _. Takes-continue (recv_loop-Takes n s.incoming s.answers) (λ b s' w e (same, sized).
            takes w e (record {
              written = ap (λ x. id_byte i ∷ x) same;
              sized = refl;
              live = refl;
              allowed = record {
                whole = λ p q. sym sized ∙ ap (λ o. length (payload_bytes o)) q;
                valid = λ _. ok;
                bounded = h;
              };
            })))
          (λ _. refuses))

receive_body-Takes :
    (granted : Bool) (n : ℕ) (s : Socket)
    → 0 < n
    → Takes (Body n) s.incoming (receive_body granted n s)
unfolding receive_body
receive_body-Takes granted n s h =
    Takes-continue (recv_loop-Takes 1 s.incoming s.answers) (λ b s' w e (same, sized).
      let byte = get_or b 0 0 in
      let i = message_id_of byte in
      Takes-behind w e (
        Takes-choice (leb 9 byte) _ _ (λ _. refuses)
          (λ known.
            Takes-choice
              (ltb max_payload_length (n - 1)
                || not (is_valid_payload_length_for_message (n - 1) i))
              _ _ (λ _. refuses)
              (λ fits.
                let id_part : id_byte i ∷ [] ≡ w =
                  ap (λ x. x ∷ []) (id_byte-message_id_of byte (ground (arith, known)))
                  ∙ sym (same ∙ single b sized) in
                let length_part : n - 1 + 1 ≡ n = omega (arith, h) in
                Takes-map
                  (λ m v body.
                    subst (λ k. Body k m (w ++ v)) length_part
                      (subst (λ x. Body (n - 1 + 1) m (x ++ v)) id_part body))
                  (receive_payload-Takes granted i (n - 1) s' (ground (arith, fits))
                    (ground (arith, fits)))))))

-- Four bytes are the number that they stand for, written out.
four_bytes :
    (b : Bytes)
    → length b ≡ 4
    → AllBytes b
    → big_endian (from_big_endian (get_or b 0 0) (get_or b 1 0) (get_or b 2 0) (get_or b 3 0)) ≡ b
four_bytes (x ∷ y ∷ z ∷ u ∷ []) h (hx, (hy, (hz, (hu, _)))) =
    let n = from_big_endian x y z u in
    let e1 : n / 2 ^ 24 % 256 ≡ x = omega arith in
    let e2 : n / 2 ^ 16 % 256 ≡ y = omega arith in
    let e3 : n / 2 ^ 8 % 256 ≡ z = omega arith in
    let e4 : n % 256 ≡ u = omega arith in cc (e1, e2, e3, e4)
four_bytes b h all = absurd (omega arith)

Body-wire_bytes :
    (n : ℕ) (m : PeerWireMessage) (b v : Bytes)
    → big_endian n ≡ b
    → Body n m v
    → b ++ v ≡ wire_bytes m
Body-wire_bytes n m b v e h = rw (h.live, h.sized, ← e, ← h.written)

receive-Takes :
    (granted : Bool) (file_descriptor : ℤ) (out_message : PeerWireMessage) (s : Socket)
    → AllBytes s.incoming
    → Takes
        (λ m w. (w ≡ wire_bytes m) × IsAllowed m)
        s.incoming
        (receive_peer_wire_message granted file_descriptor out_message s)
unfolding receive_peer_wire_message
receive-Takes granted (negsuc n) out_message s all = refuses
receive-Takes granted (pos n) out_message s all =
    Takes-choice (is_cleared out_message) _ _
      (λ _. Takes-continue (recv_loop-Takes 4 s.incoming s.answers) (λ b s' w e (same, sized).
        let n = from_big_endian (get_or b 0 0) (get_or b 1 0) (get_or b 2 0) (get_or b 3 0) in
        let bytes : AllBytes b =
          subst AllBytes same (AllBytes-append w s'.incoming (subst AllBytes e all)) in
        let prefix : big_endian n ≡ b = four_bytes b sized bytes in
        Takes-behind w e (
          Takes-choice (n == 0) _ _
            (λ empty. takes [] refl (
              append-nil w ∙ same ∙ sym prefix ∙ ap big_endian ((==_iff n 0).0 empty),
              record { whole = λ p q. cc; valid = λ q. cc; bounded = omega arith },
            ))
            (λ some_bytes.
              Takes-map
                (λ m v body.
                  (ap (λ x. x ++ v) same ∙ Body-wire_bytes n m b v prefix body, body.allowed))
                (receive_body-Takes granted n s' (ground (arith, some_bytes)))))))
      (λ _. refuses)

-- A message that is received is the one that the peer has sent, in bytes below 256, however recv cuts
-- them: its encoding is what was taken from the peer's bytes, and its payload has the length that it says and that its id allows.
pub receive_peer_wire_message_lem :
    (granted : Bool) (file_descriptor : ℤ) (out_message m : PeerWireMessage) (s s' : Socket)
    → AllBytes s.incoming
    → receive_peer_wire_message granted file_descriptor out_message s ≡ got m s'
    → (s.incoming ≡ wire_bytes m ++ s'.incoming) × IsAllowed m
receive_peer_wire_message_lem granted fd out_message m s s' all e =
    let (w, taken, (written, allowed)) = Takes-got (receive-Takes granted fd out_message s all) e in
    (taken ∙ ap (λ x. x ++ s'.incoming) written, allowed)
