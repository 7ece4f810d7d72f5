-- ===== src/Bencode/Grammar.antt =====
-- The bencode format, as a relation between objects and byte sequences that does not mention the
-- parser: the specification of src/bencode_parser.c.
use loco.Base.{
  ℕ, zero, suc, ◌+◌, ◌-◌, ◌*◌, ◌≤◌, ◌<◌, ◌≡◌, ◌≢◌, ◌⊎◌, ℤ, pos, negsuc, [], ◌∷◌, ◌++◌, Bytes,
  int64_max, length, ◌==◌, if◌then◌else◌,
}
use loco.Bencode.Types.{
  Segment, Object, Value, Objects, Entries, object, integer, byte_string, list, dictionary,
  no_items, item, no_entries, entry, count_items, count_entries,
}

abbrev pub IsDigit : ℕ → Type 0
IsDigit b = (b'0' ≤ b) × (b ≤ b'9')

abbrev pub AllDigits : Bytes → Type 0
AllDigits [] = Unit {0}
AllDigits (d ∷ ds) = IsDigit d × AllDigits ds

-- The number that decimal digits stand for, behind those already read.
abbrev pub decimal : ℕ → Bytes → ℕ
decimal n [] = n
decimal n (d ∷ ds) = decimal (n * 10 + (d - b'0')) ds

-- `4:spam`. The length may have leading zeros, which the parser lets through.
pub record EncodesString (s : Segment) (w : Bytes) : Type 0 where
  pub digits : Bytes
  pub some_digit : digits ≢ []
  pub all_digits : AllDigits digits
  pub announced : decimal 0 digits ≡ length s
  pub written : w ≡ digits ++ b':' ∷ s

-- No digit but a single 0 starts with 0.
abbrev pub IsCanonical : Bytes → Type 0
IsCanonical [] = ⊥
IsCanonical (d ∷ []) = Unit {0}
IsCanonical (d ∷ e ∷ ds) = d ≢ b'0'

abbrev pub written_integer : ℤ → Bytes → Bytes
written_integer (pos n) ds = b'i' ∷ (ds ++ b'e' ∷ [])
written_integer (negsuc n) ds = b'i' ∷ b'-' ∷ (ds ++ b'e' ∷ [])

abbrev pub magnitude : ℤ → ℕ
magnitude (pos n) = n
magnitude (negsuc n) = suc n

abbrev pub IsInt64 : ℤ → Type 0
IsInt64 (pos n) = n ≤ int64_max
IsInt64 (negsuc n) = n ≤ int64_max

-- `i-42e`: canonical digits, no `-0`, within int64_t.
pub record EncodesInteger (i : ℤ) (w : Bytes) : Type 0 where
  pub digits : Bytes
  pub canonical : IsCanonical digits
  pub all_digits : AllDigits digits
  pub denoted : decimal 0 digits ≡ magnitude i
  pub in_range : IsInt64 i
  pub written : w ≡ written_integer i digits

-- Raw byte order: the first difference decides, and a proper prefix comes first.
abbrev pub KeyBelow : Segment → Segment → Type 0
KeyBelow [] [] = ⊥
KeyBelow [] (b ∷ bs) = Unit {0}
KeyBelow (a ∷ as') [] = ⊥
KeyBelow (a ∷ as') (b ∷ bs) = (a < b) ⊎ ((a ≡ b) × KeyBelow as' bs)

-- Each key comes after the one before it, so no key comes twice.
abbrev pub SortedKeys : Entries → Type 0
SortedKeys no_entries = Unit {0}
SortedKeys (entry k x no_entries) = Unit {0}
SortedKeys (entry k x (entry j y es)) = KeyBelow k j × SortedKeys (entry j y es)

-- The capacity of an array after so many elements, each added at the end: it starts at 0, and a full
-- array goes to 1, then doubles.
unfoldable pub capacity_for : ℕ → ℕ
capacity_for zero = 0
capacity_for (suc n) = let c = capacity_for n in if n == c then (if c == 0 then 1 else c * 2) else c

-- `w` is the encoding of the object, at the offset `p` of the document: the object is stamped with
-- that offset and with the length of `w`, and so is each object inside it; arrays are stamped with
-- their count and capacity.
mutual
  pub data Encodes : Object → ℕ → Bytes → Type 0 where
    encodes :
        {v : Value} {start n p : ℕ} {w : Bytes}
        → EncodesValue v p w
        → start ≡ p
        → n ≡ length w
        → Encodes (object v start n) p w

  pub data EncodesValue : Value → ℕ → Bytes → Type 0 where
    encodes_integer :
        {i : ℤ} {p : ℕ} {w : Bytes} → EncodesInteger i w → EncodesValue (integer i) p w
    encodes_string :
        {s : Segment} {p : ℕ} {w : Bytes} → EncodesString s w → EncodesValue (byte_string s) p w
    encodes_list :
        {xs : Objects} {n c p : ℕ} {w : Bytes} (inner : Bytes)
        → EncodesItems xs (suc p) inner
        → n ≡ count_items xs
        → c ≡ capacity_for n
        → w ≡ b'l' ∷ (inner ++ b'e' ∷ [])
        → EncodesValue (list xs n c) p w
    encodes_dictionary :
        {es : Entries} {n c p : ℕ} {w : Bytes} (inner : Bytes)
        → EncodesEntries es (suc p) inner
        → SortedKeys es
        → n ≡ count_entries es
        → c ≡ capacity_for n
        → w ≡ b'd' ∷ (inner ++ b'e' ∷ [])
        → EncodesValue (dictionary es n c) p w

  pub data EncodesItems : Objects → ℕ → Bytes → Type 0 where
    encodes_no_items : {p : ℕ} {w : Bytes} → w ≡ [] → EncodesItems no_items p w
    encodes_item :
        {x : Object} {xs : Objects} {p : ℕ} {w : Bytes} (first rest : Bytes)
        → Encodes x p first
        → EncodesItems xs (p + length first) rest
        → w ≡ first ++ rest
        → EncodesItems (item x xs) p w

  pub data EncodesEntries : Entries → ℕ → Bytes → Type 0 where
    encodes_no_entries : {p : ℕ} {w : Bytes} → w ≡ [] → EncodesEntries no_entries p w
    encodes_entry :
        {k : Segment} {x : Object} {es : Entries} {p : ℕ} {w : Bytes} (key first rest : Bytes)
        → EncodesString k key
        → Encodes x (p + length key) first
        → EncodesEntries es (p + length (key ++ first)) rest
        → w ≡ (key ++ first) ++ rest
        → EncodesEntries (entry k x es) p w
