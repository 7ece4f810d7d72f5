-- ===== src/Bencode/Parser.antt =====
-- src/bencode_parser.c: `parse_bencode_buffer`, which parses one object of any type.
use loco.Base.{ℕ, zero, suc, ◌-◌}
use loco.Bencode.Types.{DataType, Object, Value, object, integer, byte_string, list, dictionary}
use loco.Bencode.Action.{Outcome, ok, failed, out_of_fuel, Action, ◌>>=◌, return, or_fail_at}
use loco.Bencode.Cursor.{Input, ParserState, peek_current_byte}
use loco.Bencode.Strings.{determine_bencode_data_type, parse_bencode_string}
use loco.Bencode.Integers.{parse_bencode_integer}
use loco.Bencode.Arrays.{Allocator}
use loco.Bencode.Containers.{BencodeList, BencodeDictionary, parse_bencode_list, parse_bencode_dict}

abbrev list_value : BencodeList → Value
list_value l = list l.items l.count l.capacity

abbrev dictionary_value : BencodeDictionary → Value
dictionary_value d = dictionary d.entries d.count d.capacity

module _ (realloc : Allocator) (input : Input) where
  unfoldable pub parse_value : Action Object → DataType → ℕ → Action Value
  parse_value parse_object DataType.byte_string start = do
    return (byte_string (← or_fail_at start (parse_bencode_string input)))
  parse_value parse_object DataType.integer start = do
    return (integer (← or_fail_at start (parse_bencode_integer input)))
  parse_value parse_object DataType.list start = do
    return (list_value (← or_fail_at start (parse_bencode_list realloc input parse_object)))
  parse_value parse_object DataType.dictionary start = do
    return (dictionary_value (← or_fail_at start (parse_bencode_dict realloc input parse_object)))
  parse_value parse_object DataType.invalid start = λ p. (failed, p)

  -- The object is stamped with where it starts and how long its encoding is.
  abbrev stamp : ℕ → Value → Action Object
  stamp start v p = (ok (object v start (p - start)), p)

  -- One unit of fuel for each level of nesting.
  unfoldable pub parse_object : ℕ → Action Object
  unfolding determine_bencode_data_type parse_value
  parse_object zero p = (out_of_fuel, p)
  parse_object (suc f) p =
      (do
        out_byte ← peek_current_byte input
        v ← parse_value (parse_object f) (determine_bencode_data_type out_byte) p
        stamp p v)
        p

-- Each level of nesting costs a byte of the input, so its length is fuel enough.
unfoldable pub parse_bencode_buffer : Allocator → ParserState → Outcome Object × ParserState
parse_bencode_buffer realloc s =
    let (r, p) = parse_object realloc s.input (suc s.input.length) s.position in
    (r, record s { position = p })
