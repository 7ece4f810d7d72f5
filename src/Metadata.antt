-- ===== src/Metadata.antt =====
-- src/torrent_metadata.c, include/torrent_metadata.h: what the client takes from a .torrent file.
pub mod Lookup
pub mod Offsets
pub mod Laws
pub mod Runs
use loco.Base.{
  ℕ, zero, suc, ◌%◌, ℤ, pos, negsuc, Bool, true, false, not, Option, none, some, [], ◌∷◌, Bytes,
  length, same_bytes, ◌==◌, if◌then◌else◌,
}
use loco.Bencode.Types.{
  Segment, DataType, Object, Value, Entries, object, integer, byte_string, list, dictionary,
  no_entries, entry, value, type_of, start_offset, encoded_length,
}

-- The enumerators are numbered from 0.
abbrev pub enumerator : DataType → ℕ
enumerator DataType.integer = 0
enumerator DataType.byte_string = 1
enumerator DataType.list = 2
enumerator DataType.dictionary = 3
enumerator DataType.invalid = 4

abbrev pub same_type : DataType → DataType → Bool
same_type a b = enumerator a == enumerator b

-- The loop over the entries, of which so many are left.
unfoldable pub find_loop : ℕ → Entries → Segment → DataType → Option Object
find_loop zero es key_name target_type = none
find_loop (suc left) no_entries key_name target_type = none
find_loop (suc left) (entry key x es) key_name target_type =
    let next = find_loop left es key_name target_type in
    if not (length key == length key_name)
    then next
    else if not (same_bytes key key_name)
    then next
    else if not (same_type (type_of (value x)) target_type)
    then next
    else some x

abbrev find_in : Value → Segment → DataType → Option Object
find_in (dictionary es count capacity) key_name target_type =
    find_loop count es key_name target_type
find_in _ key_name target_type = none

unfoldable pub find_entry_in_dictionary : Object → Segment → DataType → Option Object
find_entry_in_dictionary root key_name target_type = find_in (value root) key_name target_type

-- A null result stays null, and one that fails the test becomes null.
abbrev pub only_if : (Object → Bool) → Option Object → Option Object
only_if accepted none = none
only_if accepted (some x) = if accepted x then some x else none

abbrev pub info_key : Segment
info_key = b'i' ∷ b'n' ∷ b'f' ∷ b'o' ∷ []

abbrev pub announce_key : Segment
announce_key = b'a' ∷ b'n' ∷ b'n' ∷ b'o' ∷ b'u' ∷ b'n' ∷ b'c' ∷ b'e' ∷ []

abbrev pub name_key : Segment
name_key = b'n' ∷ b'a' ∷ b'm' ∷ b'e' ∷ []

abbrev pub length_key : Segment
length_key = b'l' ∷ b'e' ∷ b'n' ∷ b'g' ∷ b't' ∷ b'h' ∷ []

abbrev pub piece_length_key : Segment
piece_length_key =
    b'p' ∷ b'i' ∷ b'e' ∷ b'c' ∷ b'e' ∷ b' ' ∷ b'l' ∷ b'e' ∷ b'n' ∷ b'g' ∷ b't' ∷ b'h' ∷ []

abbrev pub pieces_key : Segment
pieces_key = b'p' ∷ b'i' ∷ b'e' ∷ b'c' ∷ b'e' ∷ b's' ∷ []

-- `value.integer` and `value.byte_string` of objects that were found by that type.
abbrev pub integer_of : Value → ℤ
integer_of (integer i) = i
integer_of _ = pos 0

abbrev pub segment_of : Value → Segment
segment_of (byte_string s) = s
segment_of _ = []

-- `!(i < 0)` and `!(i <= 0)`
abbrev pub is_natural : ℤ → Bool
is_natural (pos n) = true
is_natural (negsuc n) = false

abbrev pub is_positive : ℤ → Bool
is_positive (pos n) = not (n == 0)
is_positive (negsuc n) = false

unfoldable pub torrent_metadata_find_info : Object → Option Object
torrent_metadata_find_info root = find_entry_in_dictionary root info_key DataType.dictionary

unfoldable pub torrent_metadata_find_announce : Object → Option Object
torrent_metadata_find_announce root =
    find_entry_in_dictionary root announce_key DataType.byte_string

unfoldable pub torrent_metadata_find_name : Object → Option Object
torrent_metadata_find_name info = find_entry_in_dictionary info name_key DataType.byte_string

unfoldable pub torrent_metadata_find_length : Object → Option Object
torrent_metadata_find_length info =
    only_if (λ x. is_natural (integer_of (value x)))
      (find_entry_in_dictionary info length_key DataType.integer)

unfoldable pub torrent_metadata_find_piece_length : Object → Option Object
torrent_metadata_find_piece_length info =
    only_if (λ x. is_positive (integer_of (value x)))
      (find_entry_in_dictionary info piece_length_key DataType.integer)

unfoldable pub torrent_metadata_find_pieces : Object → Option Object
torrent_metadata_find_pieces info =
    only_if (λ x. length (segment_of (value x)) % 20 == 0)
      (find_entry_in_dictionary info pieces_key DataType.byte_string)

pub record BencodedSpan : Type 0 where
  pub start_offset : ℕ
  pub length : ℕ

pub record TorrentInfo : Type 0 where
  pub name : Segment
  pub length : ℤ
  pub piece_length : ℤ
  pub pieces : Segment
  pub info_span : BencodedSpan

pub record TorrentMetadata : Type 0 where
  pub announce : Segment
  pub info : TorrentInfo

infixl 5 ◌>>=◌
abbrev ◌>>=◌ : {A B : Type 0} → Option A → (A → Option B) → Option B
none >>= f = none
some a >>= f = f a

-- The fields of an info dictionary.
unfoldable pub info_of : Object → Option TorrentInfo
unfolding torrent_metadata_find_name torrent_metadata_find_length torrent_metadata_find_piece_length
    torrent_metadata_find_pieces
info_of info_dict = do
  n ← torrent_metadata_find_name info_dict
  l ← torrent_metadata_find_length info_dict
  p ← torrent_metadata_find_piece_length info_dict
  h ← torrent_metadata_find_pieces info_dict
  some (record {
    name = segment_of (value n);
    length = integer_of (value l);
    piece_length = integer_of (value p);
    pieces = segment_of (value h);
    info_span = record { start_offset = start_offset info_dict; length = encoded_length info_dict };
  })

-- A root that is no dictionary gives nothing.
unfoldable pub torrent_metadata_extract_info : Object → Option TorrentInfo
torrent_metadata_extract_info root =
    if same_type (type_of (value root)) DataType.dictionary
    then (do info_dict ← torrent_metadata_find_info root; info_of info_dict)
    else none

unfoldable pub torrent_metadata_extract : Object → Option TorrentMetadata
torrent_metadata_extract root =
    if same_type (type_of (value root)) DataType.dictionary
    then (do
      a ← torrent_metadata_find_announce root
      i ← torrent_metadata_extract_info root
      some (record { announce = segment_of (value a); info = i }))
    else none
