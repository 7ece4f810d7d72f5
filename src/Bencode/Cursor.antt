-- ===== src/Bencode/Cursor.antt =====
-- src/bencode_parser.c: setting the parser up, and reading bytes at its position.
use loco.Base.{
  ℕ, ◌+◌, ◌-◌, Bool, true, false, Option, none, some, [], Bytes, get_elem?, take, drop, ltb, leb,
  if◌then◌else◌,
}
use loco.Bencode.Types.{Segment}
use loco.Bencode.Action.{Outcome, ok, failed, Action}

-- `parser->data` and `parser->length`, which only `bencode_parser_init` sets.
pub record Input : Type 0 where
  pub bytes : Bytes
  pub length : ℕ

pub record ParserState : Type 0 where
  pub input : Input
  pub position : ℕ

-- A null `data` is allowed with length 0 alone; it is the block of no bytes.
unfoldable pub is_valid_parser : Option Bytes → ℕ → Bool
is_valid_parser none n = if ltb 0 n then false else true
is_valid_parser (some bs) n = true

abbrev block : Option Bytes → Bytes
block none = []
block (some bs) = bs

unfoldable pub bencode_parser_init : Option Bytes → ℕ → Option ParserState
unfolding is_valid_parser
bencode_parser_init bs n =
    if is_valid_parser bs n
    then some (record { input = record { bytes = block bs; length = n }; position = 0 })
    else none

module _ (input : Input) where
  unfoldable pub byte_exists_at_position : ℕ → Bool
  byte_exists_at_position position = ltb position input.length

  abbrev read_byte : Option ℕ → Action ℕ
  read_byte none p = (failed, p)
  read_byte (some b) p = (ok b, p)

  -- Where no byte is there to read, the block is the null one.
  unfoldable pub peek_current_byte : Action ℕ
  unfolding byte_exists_at_position
  peek_current_byte p =
      if byte_exists_at_position p then read_byte (get_elem? input.bytes p) p else (failed, p)

  abbrev advance : Outcome ℕ × ℕ → Outcome ℕ × ℕ
  advance (ok b, p) = (ok b, p + 1)
  advance (r, p) = (r, p)

  unfoldable pub consume_current_byte : Action ℕ
  unfolding peek_current_byte
  consume_current_byte p = advance (peek_current_byte p)

  unfoldable pub get_available_byte_count : ℕ → Option ℕ
  get_available_byte_count p = if ltb input.length p then none else some (input.length - p)

  abbrev fits : ℕ → Option ℕ → Bool
  fits needed none = false
  fits needed (some available) = leb needed available

  unfoldable pub bytes_exist_from_current_parser_position : ℕ → ℕ → Bool
  unfolding get_available_byte_count
  bytes_exist_from_current_parser_position p needed = fits needed (get_available_byte_count p)

  unfoldable pub read_bencode_string : ℕ → Action Segment
  read_bencode_string n p = (ok (take n (drop p input.bytes)), p + n)
