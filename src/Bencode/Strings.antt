-- ===== src/Bencode/Strings.antt =====
-- src/bencode_parser.c: byte strings, `<length>:<bytes>`.
use loco.Base.{
  ℕ, zero, suc, ◌+◌, ◌-◌, ◌*◌, ◌/◌, Bool, ◌&&◌, size_max, ltb, leb, ◌==◌, if◌then◌else◌,
}
use loco.Bencode.Types.{Segment, DataType, integer, byte_string, list, dictionary, invalid}
use loco.Bencode.Action.{
  ok, failed, out_of_fuel, Action, ◌>>=◌, ◌>>◌, fail_at, require, or_fail_at, get_position,
}
use loco.Bencode.Cursor.{
  Input, consume_current_byte, bytes_exist_from_current_parser_position, read_bencode_string,
}

-- `isdigit` in the C locale.
abbrev pub is_digit : ℕ → Bool
is_digit b = leb b'0' b && leb b b'9'

unfoldable pub determine_bencode_data_type : ℕ → DataType
determine_bencode_data_type b =
    if is_digit b
    then byte_string
    else if b == b'i'
    then integer
    else if b == b'l'
    then list
    else if b == b'd'
    then dictionary
    else invalid

module _ (input : Input) where
  -- The loop over the digits, entered with a byte that is read; `start` is the position to restore.
  unfoldable pub string_length_loop : ℕ → ℕ → ℕ → ℕ → Action ℕ
  string_length_loop zero start length current_byte p = (out_of_fuel, p)
  string_length_loop (suc f) start length current_byte p =
      let digit = current_byte - b'0' in
      let more =
        (do
          next ← or_fail_at start (consume_current_byte input)
          string_length_loop f start (length * 10 + digit) next)
          p in
      if is_digit current_byte
      then (if ltb ((size_max - digit) / 10) length then (failed, start) else more)
      else if current_byte == b':'
      then (ok length, p)
      else (failed, start)

  unfoldable pub determine_byte_string_length : Action ℕ
  determine_byte_string_length = do
    start ← get_position
    current_byte ← or_fail_at start (consume_current_byte input)
    if is_digit current_byte
        then string_length_loop (suc input.length) start 0 current_byte
        else fail_at start

  unfoldable pub parse_bencode_string : Action Segment
  parse_bencode_string = do
    start ← get_position
    string_len ← or_fail_at start determine_byte_string_length
    position ← get_position
    require (bytes_exist_from_current_parser_position input position string_len) start
    or_fail_at start (read_bencode_string input string_len)
