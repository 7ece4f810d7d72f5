-- ===== src/Peer/Bitfield.antt =====
-- src/peer_connection.c: which pieces the peer has, from `have` and `bitfield` messages; and the
-- test of src/main.c on it.
pub mod Bits
pub mod Laws
use Prim.Native.Nat.{bit_and, bit_or}
use loco.Base.{
  ℕ, ◌+◌, ◌-◌, ◌*◌, ◌/◌, ◌%◌, ◌^◌, Bool, true, false, not, ◌&&◌, ◌||◌, Option, none, some, [], ◌∷◌,
  Bytes, set, get_or, length, replicate, ltb, leb, ◌==◌, if◌then◌else◌,
}
use loco.Peer.Types.{PeerConnection, PieceBitfield}
use loco.Peer.Wire.{from_big_endian}

-- `0x80 >> bit_position`
abbrev pub mask : ℕ → ℕ
mask bit_position = 128 / 2 ^ bit_position

-- `bytes[piece_index / 8] |= 0x80 >> piece_index % 8`
unfoldable pub set_piece : Bytes → ℕ → Bytes
set_piece bytes piece_index =
    set bytes (piece_index / 8) (bit_or (get_or bytes (piece_index / 8) 0) (mask (piece_index % 8)))

-- `(bytes[piece_index / 8] & (0x80 >> piece_index % 8)) != 0`, no for an index behind the bytes.
unfoldable pub has_piece : Bytes → ℕ → Bool
has_piece bytes piece_index =
    not (bit_and (get_or bytes (piece_index / 8) 0) (mask (piece_index % 8)) == 0)

abbrev pub bitfield_length : ℕ → ℕ
bitfield_length piece_count = (piece_count + 7) / 8

abbrev pub with_bitfield : PeerConnection → Bytes → ℕ → PeerConnection
with_bitfield c bytes n = record c {
  peer_piece_bitfield = record { bytes = some bytes; length = n };
}

-- The bitfield to update: the one that is there, if it has the right length, or a new one, whose
-- memory `calloc` clears; `granted` is whether it gives it.
unfoldable pub current_bitfield : Bool → PieceBitfield → ℕ → Option Bytes
current_bitfield granted f n = elim f.bytes [
  | some bytes ↦ if f.length == n then some bytes else none
  | none ↦ if f.length == 0 then (if granted then some (replicate n 0) else none) else none
]

abbrev mark_piece : PeerConnection → ℕ → ℕ → Option Bytes → Option PeerConnection
mark_piece c piece_index piece_count none = none
mark_piece c piece_index piece_count (some bytes) =
    some (with_bitfield c (set_piece bytes piece_index) (bitfield_length piece_count))

-- `have`, on a payload of four bytes; none is a returned false, which leaves the connection alone.
unfoldable pub update_bitfield : Bool → PeerConnection → Bytes → ℕ → ℕ → Option PeerConnection
update_bitfield granted c payload payload_length piece_count =
    let piece_index =
      from_big_endian (get_or payload 0 0) (get_or payload 1 0) (get_or payload 2 0)
        (get_or payload 3 0) in
    if payload_length == 4
    then (if leb piece_count piece_index
        then none
        else mark_piece c piece_index piece_count
            (current_bitfield granted c.peer_piece_bitfield (bitfield_length piece_count)))
    else none

-- The bits of the last byte that stand for no piece are 0.
unfoldable pub padding_clear : Bytes → ℕ → ℕ → Bool
padding_clear payload payload_length piece_count =
    piece_count % 8 == 0
    || bit_and (2 ^ (8 - piece_count % 8) - 1) (get_or payload (payload_length - 1) 0) == 0

-- `bitfield`, which must come before any other news of pieces; `granted` is whether `malloc` gives
-- the memory.
unfoldable pub bitfield_applied : Bool → PeerConnection → Bytes → ℕ → ℕ → Option PeerConnection
bitfield_applied granted c payload payload_length piece_count = elim c.peer_piece_bitfield.bytes [
  | some bytes ↦ none
  | none ↦
      if c.peer_piece_bitfield.length == 0
      then (if payload_length == bitfield_length piece_count
          then (if padding_clear payload payload_length piece_count
              then (if granted then some (with_bitfield c payload payload_length) else none)
              else none)
          else none)
      else none
]
