-- ===== src/Peer/Wire.antt =====
-- src/peer_connection.c: numbers in network byte order, the messages that are sent, the handshake.
pub mod Laws
use loco.Base.{
  copy_at, same_bytes, ℕ, ◌+◌, ◌-◌, ◌*◌, ◌/◌, ◌%◌, ◌^◌, Bool, true, false, ◌&&◌, Option, none, some,
  [], ◌∷◌, ◌++◌, Bytes, set, get_or, take, drop, length, replicate, ltb, ◌==◌, if◌then◌else◌,
}

infixl 5 ◌>>=◌
abbrev ◌>>=◌ {ℓ κ} : {A : Type ℓ} {B : Type κ} → Option A → (A → Option B) → Option B
none >>= f = none
some a >>= f = f a

abbrev pub handshake_bytes_length : ℕ
handshake_bytes_length = 68

abbrev pub request_length : ℕ
request_length = 17

-- The four bytes of a uint32_t; the conversion to unsigned char keeps the lowest 8 bits.
abbrev pub big_endian : ℕ → Bytes
big_endian n = (n / 2 ^ 24 % 256) ∷ (n / 2 ^ 16 % 256) ∷ (n / 2 ^ 8 % 256) ∷ (n % 256) ∷ []

-- `(b0 << 24) | (b1 << 16) | (b2 << 8) | b3` of bytes, which share no bit once shifted.
abbrev pub from_big_endian : ℕ → ℕ → ℕ → ℕ → ℕ
from_big_endian b0 b1 b2 b3 = b0 * 2 ^ 24 + b1 * 2 ^ 16 + b2 * 2 ^ 8 + b3

-- Writes through the pointer `buffer + at`, behind which there is room for `capacity` bytes.
unfoldable pub write_uint32_big_endian : Bytes → ℕ → ℕ → ℕ → Option Bytes
write_uint32_big_endian buffer at capacity n =
    if ltb capacity 4 then none else some (copy_at buffer at (big_endian n))

unfoldable pub append_uint32_big_endian : Bytes → ℕ → ℕ → ℕ → Option (Bytes × ℕ)
unfolding write_uint32_big_endian
append_uint32_big_endian buffer total_buffer_length byte_offset n =
    if ltb total_buffer_length byte_offset
    then none
    else if ltb (total_buffer_length - byte_offset) 4
    then none
    else (do
      written ← write_uint32_big_endian buffer byte_offset (total_buffer_length - byte_offset) n
      some (written, byte_offset + 4))

-- The request message that `peer_send_request` sends; the array that it fills starts out with any
-- bytes.
unfoldable pub build_request : Bytes → ℕ → ℕ → ℕ → Option Bytes
unfolding append_uint32_big_endian
build_request request_buffer piece_index begin len = do
  (b1, o1) ← append_uint32_big_endian request_buffer request_length 0 13
  let b2 = set b1 o1 6
  (b3, o3) ← append_uint32_big_endian b2 request_length (o1 + 1) piece_index
  (b4, o4) ← append_uint32_big_endian b3 request_length o3 begin
  (b5, o5) ← append_uint32_big_endian b4 request_length o4 len
  if o5 == request_length then some b5 else none

-- The message that `peer_send_interested` sends.
unfoldable pub build_interested : Bytes → Option Bytes
unfolding write_uint32_big_endian
build_interested buffer = do written ← write_uint32_big_endian buffer 0 5 1; some (set written 4 2)

-- "BitTorrent protocol"
abbrev pub handshake_protocol : Bytes
handshake_protocol =
    66 ∷ 105 ∷ 116 ∷ 84 ∷ 111 ∷ 114 ∷ 114 ∷ 101 ∷ 110 ∷ 116 ∷ 32 ∷ 112 ∷ 114 ∷ 111 ∷ 116 ∷ 111 ∷ 99
    ∷ 111 ∷ 108 ∷ []

unfoldable pub build_handshake : Bytes → Bytes → ℕ → Option Bytes
build_handshake info_hash peer_id handshake_capacity =
    if ltb handshake_capacity handshake_bytes_length
    then none
    else (let h0 = set (replicate handshake_bytes_length 0) 0 19 in
        let h1 = copy_at h0 1 handshake_protocol in
        let h2 = copy_at h1 28 info_hash in some (copy_at h2 48 peer_id))

unfoldable pub validate_handshake_response : Bytes → Bytes → Bool
validate_handshake_response response info_hash =
    if get_or response 0 0 == 19
    then (if same_bytes (take 19 (drop 1 response)) handshake_protocol
        then (if same_bytes (take 20 (drop 28 response)) info_hash then true else false)
        else false)
    else false
