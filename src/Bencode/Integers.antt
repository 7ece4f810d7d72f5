-- ===== src/Bencode/Integers.antt =====
-- src/bencode_parser.c: integers, `i<decimal>e`, into an int64_t.
use loco.Base.{
  ℕ, zero, suc, ◌+◌, ◌-◌, ◌*◌, ◌/◌, Bool, true, false, not, ◌&&◌, ◌||◌, ℤ, pos, negsuc, int64_max,
  ltb, ◌==◌, if◌then◌else◌,
}
use loco.Bencode.Action.{
  ok, failed, out_of_fuel, Action, ◌>>=◌, ◌>>◌, return, fail_at, require, or_fail_at, get_position,
}
use loco.Bencode.Cursor.{Input, consume_current_byte}
use loco.Bencode.Strings.{is_digit}

-- `-magnitude` as an int64_t: `-0` is 0.
abbrev pub negate : ℕ → ℤ
negate zero = pos 0
negate (suc n) = negsuc n

-- `magnitude` is below 2^63 + 1 when negative, so INT64_MIN is the case `magnitude = 2^63`.
unfoldable pub integer_value : Bool → ℕ → ℤ
integer_value negative_sign magnitude =
    if negative_sign
    then (if magnitude == int64_max + 1 then negsuc int64_max else negate magnitude)
    else pos magnitude

-- The two overflow checks of the loop.
unfoldable pub would_overflow : Bool → ℕ → ℕ → Bool
would_overflow negative_sign magnitude digit =
    not negative_sign && ltb ((int64_max - digit) / 10) magnitude
    || negative_sign && ltb ((int64_max + 1 - digit) / 10) magnitude

module _ (input : Input) where
  -- The byte after `i`, or after `i-`, with the sign.
  unfoldable pub read_sign : ℕ → ℕ → Action (Bool × ℕ)
  read_sign start current_byte p =
      if current_byte == b'-'
      then (do next ← or_fail_at start (consume_current_byte input); return (true, next)) p
      else (ok (false, current_byte), p)

  -- The loop over the digits: the magnitude, with the byte that ended it.
  unfoldable pub magnitude_loop : ℕ → ℕ → Bool → ℕ → ℕ → Action (ℕ × ℕ)
  unfolding would_overflow
  magnitude_loop zero start negative_sign magnitude current_byte p = (out_of_fuel, p)
  magnitude_loop (suc f) start negative_sign magnitude current_byte p =
      let digit = current_byte - b'0' in
      let grown = magnitude * 10 + digit in
      let more =
        (do
          next ← or_fail_at start (consume_current_byte input)
          if grown == 0 && is_digit next
              then fail_at start
              else magnitude_loop f start negative_sign grown next)
          p in
      if is_digit current_byte
      then (if would_overflow negative_sign magnitude digit then (failed, start) else more)
      else (ok (magnitude, current_byte), p)

  unfoldable pub parse_bencode_integer : Action ℤ
  unfolding read_sign integer_value
  parse_bencode_integer = do
    start ← get_position
    first ← or_fail_at start (consume_current_byte input)
    require (first == b'i') start
    next ← or_fail_at start (consume_current_byte input)
    (negative_sign, current_byte) ← read_sign start next
    require (not (current_byte == b'e')) start
    require (not (negative_sign && current_byte == b'0')) start
    (magnitude, last) ← magnitude_loop (suc input.length) start negative_sign 0 current_byte
    if last == b'e' then return (integer_value negative_sign magnitude) else fail_at start
