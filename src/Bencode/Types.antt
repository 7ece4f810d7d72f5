-- ===== src/Bencode/Types.antt =====
-- include/bencode_types.h: the parsed form of a bencoded document, and the parser's state of
-- include/bencode_parser.h.
use loco.Base.{ℕ, suc, ℤ, Bytes}

-- A `bencode_segment_t` is the bytes that it views: its `length` is theirs.
abbrev pub Segment : Type 0
Segment = Bytes

pub data DataType : Type 0 where
  integer byte_string list dictionary invalid : DataType

-- `BencodeObject` with its tagged union, `BencodeList` (items, count, capacity) and
-- `BencodeDictionary` (entries, count, capacity). `Objects` and `Entries` are the arrays.
mutual
  pub data Object : Type 0 where
    object : Value → ℕ → ℕ → Object

  pub data Value : Type 0 where
    integer : ℤ → Value
    byte_string : Segment → Value
    list : Objects → ℕ → ℕ → Value
    dictionary : Entries → ℕ → ℕ → Value

  pub data Objects : Type 0 where
    no_items : Objects
    item : Object → Objects → Objects

  pub data Entries : Type 0 where
    no_entries : Entries
    entry : Segment → Object → Entries → Entries

unfoldable pub value : Object → Value
value (object v start n) = v

-- `type`, the tag of the union.
abbrev pub type_of : Value → DataType
type_of (integer i) = DataType.integer
type_of (byte_string s) = DataType.byte_string
type_of (list xs n c) = DataType.list
type_of (dictionary es n c) = DataType.dictionary

unfoldable pub start_offset : Object → ℕ
start_offset (object v start n) = start

unfoldable pub encoded_length : Object → ℕ
encoded_length (object v start n) = n

-- `list.items[list.count] = obj`, at the end of the array.
abbrev pub append_item : Objects → Object → Objects
append_item no_items x = item x no_items
append_item (item y ys) x = item y (append_item ys x)

abbrev pub append_entry : Entries → Segment → Object → Entries
append_entry no_entries k x = entry k x no_entries
append_entry (entry j y es) k x = entry j y (append_entry es k x)

abbrev pub count_items : Objects → ℕ
count_items no_items = 0
count_items (item x xs) = suc (count_items xs)

abbrev pub count_entries : Entries → ℕ
count_entries no_entries = 0
count_entries (entry k x es) = suc (count_entries es)
