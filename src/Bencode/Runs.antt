-- ===== src/Bencode/Runs.antt =====
-- Runs of the parser on small inputs, like those of tests/test_bencode_parser.c, and what the theorems
-- say of them.
use loco.Base.{
  ℕ, ◌+◌, ◌*◌, ◌≤◌, inl, size_max, ◌≡◌, ◌≢◌, refl, true, some, ltb, arith, [], ◌∷◌, pos, negsuc,
  Bytes, length,
}
use loco.Bencode.Types.{
  Object, object, integer, byte_string, list, dictionary, item, no_items, entry, no_entries,
}
use loco.Bencode.Action.{Outcome, ok, failed, out_of_fuel}
use loco.Bencode.Cursor.{
  ParserState, consume_current_byte, bytes_exist_from_current_parser_position, read_bencode_string,
}
use loco.Bencode.Strings.{determine_byte_string_length, string_length_loop, parse_bencode_string}
use loco.Bencode.Integers.{magnitude_loop, parse_bencode_integer}
use loco.Bencode.Containers.{
  store_item, store_entry, list_loop, parse_bencode_list, dict_loop, parse_bencode_dict,
}
use loco.Bencode.Arrays.{object_size, new_capacity, reserve}
use loco.Bencode.Grammar.{Encodes}
use loco.Bencode.Sound.Cursor.{Between}
use loco.Bencode.Sound.Lists.{Parsed}
use loco.Bencode.Sound.Arrays.{Block, reserve-Block}
use loco.Bencode.Sound.Buffer.{
  parse_bencode_buffer_sound, parse_bencode_buffer_restores, parse_bencode_buffer_total,
}
use loco.Bencode.Complete.Objects.{parse_bencode_buffer_iff}
use loco.Bencode.Parser.{parse_object, parse_bencode_buffer}

abbrev at_start : Bytes → ParserState
at_start bs = record { input = record { bytes = bs; length = length bs }; position = 0 }

abbrev run : Bytes → Outcome Object × ParserState
run bs = parse_bencode_buffer (λ _ _. true) (at_start bs)

-- li-7e1:xe, and more behind it.
abbrev list_text : Bytes
list_text = b'l' ∷ b'i' ∷ b'-' ∷ b'7' ∷ b'e' ∷ b'1' ∷ b':' ∷ b'x' ∷ b'e' ∷ b'z' ∷ []

abbrev list_object : Object
list_object =
    object
      (list
        (item (object (integer (negsuc 6)) 1 4)
          (item (object (byte_string (b'x' ∷ [])) 5 3) no_items))
        2 2)
      0 9

nested_list : run list_text ≡ (ok list_object, record (at_start list_text) { position = 9 })
unfolding parse_object parse_bencode_buffer consume_current_byte
    bytes_exist_from_current_parser_position read_bencode_string determine_byte_string_length
    string_length_loop parse_bencode_string magnitude_loop parse_bencode_integer store_item
    list_loop parse_bencode_list
nested_list = refl

-- d1:ai0e1:ble
dictionary_run :
    (run (
      b'd' ∷ b'1' ∷ b':' ∷ b'a' ∷ b'i' ∷ b'0' ∷ b'e' ∷ b'1' ∷ b':' ∷ b'b' ∷ b'l' ∷ b'e' ∷ b'e'
      ∷ [])).0
    ≡ ok (
        object
          (dictionary
            (entry
              (b'a' ∷ [])
              (object (integer (pos 0)) 4 3)
              (entry (b'b' ∷ []) (object (list no_items 0 0) 10 2) no_entries))
            2
            2)
          0
          13)
unfolding parse_object parse_bencode_buffer consume_current_byte
    bytes_exist_from_current_parser_position read_bencode_string determine_byte_string_length
    string_length_loop parse_bencode_string magnitude_loop parse_bencode_integer store_entry
    list_loop parse_bencode_list dict_loop parse_bencode_dict
dictionary_run = refl

-- ll1:x, whose lists are not closed, behind a byte that was read before.
abbrev open_text : ParserState
open_text = record (at_start (b'e' ∷ b'l' ∷ b'l' ∷ b'1' ∷ b':' ∷ b'x' ∷ [])) { position = 1 }

open_list : parse_bencode_buffer (λ _ _. true) open_text ≡ (failed, open_text)
unfolding parse_object parse_bencode_buffer consume_current_byte
    bytes_exist_from_current_parser_position read_bencode_string determine_byte_string_length
    string_length_loop parse_bencode_string store_item list_loop parse_bencode_list
open_list = refl

parse_bencode_buffer_iff_example :
    (w : Bytes) × Encodes list_object 0 w × Between (at_start list_text).input 0 w 9
parse_bencode_buffer_iff_example =
    (parse_bencode_buffer_iff (λ _ _. true) (at_start list_text) list_object 9 (λ _ _. refl)
        (omega arith) (omega arith)).0
      nested_list

parse_bencode_buffer_sound_example :
    ((at_start list_text).input ≡ (at_start list_text).input)
    × Parsed (at_start list_text).input 0 list_object 9
parse_bencode_buffer_sound_example =
    parse_bencode_buffer_sound (λ _ _. true) (at_start list_text) (omega arith) list_object
      (record (at_start list_text) { position = 9 }) nested_list

parse_bencode_buffer_restores_example : open_text ≡ open_text
parse_bencode_buffer_restores_example =
    parse_bencode_buffer_restores (λ _ _. true) open_text (omega arith) open_text open_list

parse_bencode_buffer_total_example :
    (parse_bencode_buffer (λ _ n. ltb n 100) open_text).0 ≢ out_of_fuel
parse_bencode_buffer_total_example =
    parse_bencode_buffer_total (λ _ n. ltb n 100) open_text (omega arith)

third_item : reserve (λ _ _. true) object_size 8 2 2 ≡ some 4
unfolding reserve new_capacity
third_item = refl

reserve-Block_example :
    (bytes : ℕ) × Block (λ _ _. true) 8 96 bytes
    × (4 * object_size ≤ bytes)
    × ((2 + 1) * object_size ≤ bytes)
    × (bytes ≤ size_max)
reserve-Block_example =
    reserve-Block (λ _ _. true) object_size 8 2 2 96 4 (inl refl) (omega arith) (omega arith)
      (omega arith) third_item
