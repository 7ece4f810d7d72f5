-- ===== src/Bencode/Containers.antt =====
-- src/bencode_parser.c: lists and dictionaries, over an action `parse_object` that parses what
-- they hold (`parse_bencode_buffer`, called recursively).
use loco.Base.{
  ℕ, zero, suc, ◌+◌, Bool, true, false, Option, none, some, [], ◌∷◌, ltb, ◌==◌, if◌then◌else◌,
}
use loco.Bencode.Types.{
  Segment, Object, Objects, no_items, Entries, no_entries, entry, append_item, append_entry,
}
use loco.Bencode.Action.{
  ok, failed, out_of_fuel, Action, ◌>>=◌, ◌>>◌, return, fail_at, require, or_fail_at, get_position,
}
use loco.Bencode.Cursor.{Input, peek_current_byte, consume_current_byte}
use loco.Bencode.Strings.{parse_bencode_string}
use loco.Bencode.Arrays.{Allocator, object_size, entry_size, reserve}

pub record BencodeList : Type 0 where
  pub items : Objects
  pub count : ℕ
  pub capacity : ℕ

pub record BencodeDictionary : Type 0 where
  pub entries : Entries
  pub capacity : ℕ
  pub count : ℕ

abbrev pub empty_list : BencodeList
empty_list = record { items = no_items; count = 0; capacity = 0 }

abbrev pub empty_dictionary : BencodeDictionary
empty_dictionary = record { entries = no_entries; capacity = 0; count = 0 }

-- The test on the previous key: `memcmp` over the shorter length is not positive, and if it is 0
-- the previous key is the shorter one.
unfoldable pub key_precedes : Segment → Segment → Bool
key_precedes [] [] = false
key_precedes [] (b ∷ bs) = true
key_precedes (a ∷ as') [] = false
key_precedes (a ∷ as') (b ∷ bs) =
    if ltb a b then true else if a == b then key_precedes as' bs else false

-- The key of the entry at `count - 1`.
unfoldable pub last_key : Entries → Option Segment
last_key no_entries = none
last_key (entry k x no_entries) = some k
last_key (entry k x (entry j y es)) = last_key (entry j y es)

unfoldable pub sorted_after : Option Segment → Segment → Bool
unfolding key_precedes
sorted_after none key = true
sorted_after (some previous) key = key_precedes previous key

module _ (realloc : Allocator) (input : Input) where
  -- What the code does with the element that it parsed: `start` is the position to restore.
  unfoldable pub store_item : ℕ → BencodeList → Object → Action BencodeList
  unfolding reserve
  store_item start l x p = elim (reserve realloc object_size p l.count l.capacity) [
    | none ↦ (failed, start)
    | some capacity ↦
        (ok (record { items = append_item l.items x; count = l.count + 1; capacity = capacity }), p)
  ]

  unfoldable pub store_entry : ℕ → BencodeDictionary → Segment → Object → Action BencodeDictionary
  unfolding reserve
  store_entry start d key x p = elim (reserve realloc entry_size p d.count d.capacity) [
    | none ↦ (failed, start)
    | some capacity ↦ (
      ok (record {
        entries = append_entry d.entries key x;
        capacity = capacity;
        count = d.count + 1;
      }),
      p,
    )
  ]

  module _ (parse_object : Action Object) where
    -- while (current_byte != 'e'), then the closing byte.
    unfoldable pub list_loop : ℕ → ℕ → BencodeList → ℕ → Action BencodeList
    list_loop zero start l current_byte p = (out_of_fuel, p)
    list_loop (suc f) start l current_byte p =
        let round =
          (do
            x ← or_fail_at start parse_object
            grown ← store_item start l x
            next ← or_fail_at start (peek_current_byte input)
            list_loop f start grown next)
            p in
        let closing =
          (do
            last ← or_fail_at start (consume_current_byte input)
            if last == b'e' then return l else fail_at start)
            p in
        if current_byte == b'e' then closing else round

    unfoldable pub parse_bencode_list : Action BencodeList
    parse_bencode_list = do
      start ← get_position
      first ← or_fail_at start (consume_current_byte input)
      require (first == b'l') start
      next ← or_fail_at start (peek_current_byte input)
      list_loop (suc input.length) start empty_list next

    -- `current_key` is parsed, checked against the previous one, and its value read.
    unfoldable pub dict_loop : ℕ → ℕ → BencodeDictionary → ℕ → Action BencodeDictionary
    unfolding sorted_after last_key
    dict_loop zero start d current_byte p = (out_of_fuel, p)
    dict_loop (suc f) start d current_byte p =
        let round =
          (do
            key ← or_fail_at start (parse_bencode_string input)
            require (sorted_after (last_key d.entries) key) start
            x ← or_fail_at start parse_object
            grown ← store_entry start d key x
            next ← or_fail_at start (peek_current_byte input)
            dict_loop f start grown next)
            p in
        let closing = (do _ ← or_fail_at start (consume_current_byte input); return d) p in
        if current_byte == b'e' then closing else round

    unfoldable pub parse_bencode_dict : Action BencodeDictionary
    parse_bencode_dict = do
      start ← get_position
      first ← or_fail_at start (consume_current_byte input)
      require (first == b'd') start
      next ← or_fail_at start (peek_current_byte input)
      dict_loop (suc input.length) start empty_dictionary next
