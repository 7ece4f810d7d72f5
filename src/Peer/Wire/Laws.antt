-- ===== src/Peer/Wire/Laws.antt =====
-- What goes over the wire is what the protocol lays down.
use loco.Base.{
  copy_at, copy_at-append, same_bytes, same_bytes_iff, ℕ, ◌/◌, ◌%◌, ◌^◌, ◌<◌, ◌≡◌, refl, sym, ap,
  subst, ◌∙◌, ◌↔◌, true, false, some, [], ◌∷◌, ◌++◌, Bytes, arith, take, length, append_assoc,
  append-nil, take-append, replicate, if◌then◌else◌,
}
use loco.Peer.Wire.{
  big_endian, from_big_endian, build_request, handshake_protocol, build_handshake, same_bytes,
  validate_handshake_response,
}

-- A 32-bit number written in network byte order reads back as itself.
pub from_big_endian-big_endian :
    (n : ℕ)
    → n < 2 ^ 32
    → from_big_endian (n / 2 ^ 24 % 256) (n / 2 ^ 16 % 256) (n / 2 ^ 8 % 256) (n % 256) ≡ n
from_big_endian-big_endian n h = omega arith

-- Whatever the array of 17 bytes held, `peer_send_request` fills it with the length 13, the id 6 and
-- the three numbers in network byte order.
pub build_request_lem :
    (buffer : Bytes) (piece_index begin len : ℕ)
    → length buffer ≡ 17
    → build_request buffer piece_index begin len
      ≡ some (big_endian 13 ++ 6 ∷ (big_endian piece_index ++ (big_endian begin ++ big_endian len)))
unfolding build_request
build_request_lem
      (b0 ∷ b1 ∷ b2 ∷ b3 ∷ b4 ∷ b5 ∷ b6 ∷ b7 ∷ b8 ∷ b9 ∷ b10 ∷ b11 ∷ b12 ∷ b13 ∷ b14 ∷ b15 ∷ b16
        ∷ [])
      i j k h =
    refl
build_request_lem b i j k h = absurd (omega arith)

-- The first 28 bytes of a handshake: the protocol's name with its length, and 8 reserved bytes.
abbrev pub handshake_head : Bytes
handshake_head = 19 ∷ (handshake_protocol ++ replicate 8 0)

-- The handshake is the head, the info hash and the peer id, one behind the other.
pub build_handshake_lem :
    (info_hash peer_id : Bytes)
    → length info_hash ≡ 20
    → length peer_id ≡ 20
    → build_handshake info_hash peer_id 68 ≡ some (handshake_head ++ (info_hash ++ peer_id))
unfolding build_handshake
build_handshake_lem h i eh ei = ap some (
    ap (λ x. copy_at x 48 i)
      (copy_at-append 28 handshake_head (replicate 20 0) (replicate 20 0) h refl (sym eh))
    ∙ ap (λ x. copy_at x 48 i) (sym (append_assoc handshake_head h (replicate 20 0)))
    ∙ ap (λ x. copy_at ((handshake_head ++ h) ++ x) 48 i) (sym (append-nil (replicate 20 0)))
    ∙ copy_at-append 48 (handshake_head ++ h) (replicate 20 0) [] i (omega arith) (sym ei)
    ∙ append_assoc handshake_head h (i ++ [])
    ∙ ap (λ x. handshake_head ++ (h ++ x)) (append-nil i))

-- A handshake that this code builds, of an info hash and a peer id of 20 bytes each, passes this
-- code's check exactly when the info hash is the expected one.
pub validate-build_handshake :
    (sent expected peer_id handshake : Bytes)
    → length sent ≡ 20
    → length peer_id ≡ 20
    → build_handshake sent peer_id 68 ≡ some handshake
    → (validate_handshake_response handshake expected ≡ true) ↔ (sent ≡ expected)
unfolding validate_handshake_response
validate-build_handshake h h' i t eh ei e =
    rw (shape, hash_part)
      (λ v. (same_bytes_iff h h').0 (checked v), λ same. rw ((same_bytes_iff h h').1 same) refl)
  where
    shape : t ≡ handshake_head ++ (h ++ i)
    shape = cc (build_handshake_lem h i eh ei)

    hash_part : take 20 (h ++ i) ≡ h
    hash_part = subst (λ n. take n (h ++ i) ≡ h) eh (take-append h i)

    checked : (if same_bytes h h' then true else false) ≡ true → same_bytes h h' ≡ true
    checked v = ground arith
