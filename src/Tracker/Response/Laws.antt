-- ===== src/Tracker/Response/Laws.antt =====
-- What is accepted as an answer of the tracker, and which peers are taken from it.
use loco.Base.{
  drop_all, ℕ, suc, ◌+◌, ◌/◌, ◌≤◌, ◌≡◌, ◌↔◌, refl, sym, ap, subst, ◌∙◌, ◌⊎◌, inl, inr, true, Option,
  Option-cases, some, ◌++◌, append-nil, Bytes, arith, length, drop, size_max, ◌==◌, ==_iff,
}
use loco.Bencode.Types.{
  DataType, Object, Objects, Entries, object, list, dictionary, no_items, item, value, type_of,
  count_entries,
}
use loco.Bencode.Action.{Outcome, ok, failed, out_of_fuel}
use loco.Bencode.Arrays.{Allocator}
use loco.Bencode.Cursor.{ParserState, is_valid_parser, bencode_parser_init}
use loco.Bencode.Parser.{parse_bencode_buffer}
use loco.Bencode.Grammar.{
  Encodes, EncodesItems, SortedKeys, encodes, encodes_integer, encodes_string, encodes_list,
  encodes_dictionary, encodes_item,
}
use loco.Bencode.Sound.Buffer.{parse_bencode_buffer_sound}
use loco.Bencode.Complete.Arrays.{document_max, Grants}
use loco.Bencode.Complete.Objects.{parse_bencode_buffer_iff}
use loco.Metadata.{same_type, find_entry_in_dictionary}
use loco.Metadata.Lookup.{same_type_iff, IsEntry, IsEntry-unique, find_entry_in_dictionary_iff}
use loco.Metadata.Offsets.{dictionary-Inside}
use loco.Tracker.Peers.{peer_size, peers_extract_list}
use loco.Tracker.Peers.Listed.{AllSorted, IsSortedValue, peers_of, peers_extract_list_lem}
use loco.Tracker.Response.{
  whole_dictionary, first_of, ResponseBuffer, peers_key, find_response_entry, find_peers,
  tracker_response_parse, extract_peers,
}

-- A buffer of the bytes that it holds.
abbrev pub buffer_of : Bytes → ResponseBuffer
buffer_of bs = record { bytes = some bs; length = length bs }

abbrev pub state_of : Bytes → ParserState
state_of bs = record { input = record { bytes = bs; length = length bs }; position = 0 }

-- The inversion of the tests behind the parser.
whole_dictionary-ok :
    (n : ℕ) (r : Outcome Object × ParserState) (x : Object)
    → whole_dictionary n r ≡ ok x
    → (r.0 ≡ ok x) × (r.1.position ≡ n) × (type_of (value x) ≡ DataType.dictionary)
whole_dictionary-ok n (ok y, s) x e =
    let ends : (s.position == n) ≡ true = ground (arith, e) in
    let typed : same_type (type_of (value y)) DataType.dictionary ≡ true =
      ground (arith, e, ends) in
    let same : y ≡ x = ground (arith, e, ends, typed) in
    (
      ap ok same,
      (==_iff s.position n).0 ends,
      ap (λ (z : Object). type_of (value z)) (sym same) ∙ (same_type_iff _ _).0 typed,
    )
whole_dictionary-ok n (failed, s) x e = cc
whole_dictionary-ok n (out_of_fuel, s) x e = cc

pub response-Encodes :
    (realloc : Allocator) (bs : Bytes) (x : Object)
    → tracker_response_parse realloc (buffer_of bs) ≡ ok x
    → Encodes x 0 bs × (type_of (value x) ≡ DataType.dictionary)
unfolding tracker_response_parse bencode_parser_init is_valid_parser
response-Encodes realloc bs x e =
    let r = parse_bencode_buffer realloc (state_of bs) in
    let (parsed, ends, typed) = whole_dictionary-ok (length bs) r x e in
    let (_, h) =
      parse_bencode_buffer_sound realloc (state_of bs) (omega arith) x r.1
        (ap (λ o. (o, r.1)) parsed) in
    let whole : h.text ≡ bs =
      sym (append-nil h.text)
      ∙ ap (λ t. h.text ++ t)
          (sym (ap (λ n. drop n bs) ends ∙ drop_all (length bs) bs (omega arith)))
      ∙ sym h.between.split in
    (subst (λ w. Encodes x 0 w) whole h.encoded, typed)

-- Where memory is granted, an answer of at most 2^56 bytes is accepted exactly when it is, from its
-- first byte to its last, the encoding of a dictionary.
pub tracker_response_parse_iff :
    (realloc : Allocator) (bs : Bytes) (x : Object)
    → Grants realloc
    → length bs ≤ document_max
    → (tracker_response_parse realloc (buffer_of bs) ≡ ok x)
      ↔ (Encodes x 0 bs × (type_of (value x) ≡ DataType.dictionary))
unfolding tracker_response_parse bencode_parser_init is_valid_parser
tracker_response_parse_iff realloc bs x all small = (response-Encodes realloc bs x, complete)
  where
    r : Outcome Object × ParserState
    r = parse_bencode_buffer realloc (state_of bs)

    complete :
        Encodes x 0 bs × (type_of (value x) ≡ DataType.dictionary)
        → whole_dictionary (length bs) r ≡ ok x
    complete (g, typed) =
        let run : r ≡ (ok x, record (state_of bs) { position = length bs }) =
          (parse_bencode_buffer_iff realloc (state_of bs) x (length bs) all (omega arith) small).1 (
            bs,
            g,
            record {
              ends = omega arith;
              bounded = omega arith;
              split =
                  sym (append-nil bs)
                  ∙ ap (λ t. bs ++ t) (sym (drop_all (length bs) bs (omega arith)));
            },
          ) in
        rw (run, (same_type_iff _ _).1 typed, (==_iff (length bs) (length bs)).1 refl)

-- In a dictionary with sorted keys, the peers are the one entry of their key, if it is a string or a
-- list.
pub find_peers_iff :
    (es : Entries) (capacity start size : ℕ) (x : Object)
    → SortedKeys es
    → (find_peers (object (dictionary es (count_entries es) capacity) start size) ≡ some x) ↔ (
        IsEntry es peers_key x
        × ((type_of (value x) ≡ DataType.byte_string) ⊎ (type_of (value x) ≡ DataType.list)))
unfolding find_peers find_response_entry
find_peers_iff es capacity start size x s = (sound, complete)
  where
    root : Object
    root = object (dictionary es (count_entries es) capacity) start size

    found :
        (t : DataType) (y : Object)
        → (find_entry_in_dictionary root peers_key t ≡ some y)
          ↔ (IsEntry es peers_key y × (type_of (value y) ≡ t))
    found t y = find_entry_in_dictionary_iff es capacity start size peers_key t y s

    sound :
        find_peers root ≡ some x
        → IsEntry es peers_key x
          × ((type_of (value x) ≡ DataType.byte_string) ⊎ (type_of (value x) ≡ DataType.list))
    sound e = elim (Option-cases (find_entry_in_dictionary root peers_key DataType.byte_string)) [
      | inl no_string ↦
          let (h, ty) = (found DataType.list x).0 (ground (arith, e, no_string)) in (h, inr ty)
      | inr (y, string) ↦
          let same : y ≡ x = ground (arith, e, string) in
          let (h, ty) = (found DataType.byte_string x).0 (string ∙ ap some same) in (h, inl ty)
    ]

    complete :
        IsEntry es peers_key x
          × ((type_of (value x) ≡ DataType.byte_string) ⊎ (type_of (value x) ≡ DataType.list))
        → find_peers root ≡ some x
    complete (h, inl ty) =
        ap (λ o. first_of o (find_entry_in_dictionary root peers_key DataType.list))
          ((found DataType.byte_string x).1 (h, ty))
    complete (h, inr ty) =
        elim (Option-cases (find_entry_in_dictionary root peers_key DataType.byte_string)) [
          | inl no_string ↦
              ap (λ o. first_of o (find_entry_in_dictionary root peers_key DataType.list)) no_string
              ∙ (found DataType.list x).1 (h, ty)
          | inr (y, string) ↦
              let (h', ty') = (found DataType.byte_string y).0 string in
              let same : y ≡ x = IsEntry-unique es peers_key y x s h' h in
              let clash : DataType.byte_string ≡ DataType.list =
                sym ty' ∙ ap (λ (z : Object). type_of (value z)) same ∙ ty in
              cc clash
        ]

-- The items of an encoded list have dictionaries with sorted keys and right counts.
value-IsSortedValue : (x : Object) (p : ℕ) (w : Bytes) → Encodes x p w → IsSortedValue (value x)
unfolding value
value-IsSortedValue _ p w (encodes (encodes_integer g) _ _) = tt
value-IsSortedValue _ p w (encodes (encodes_string g) _ _) = tt
value-IsSortedValue _ p w (encodes (encodes_list inner g n c e) _ _) = tt
value-IsSortedValue _ p w (encodes (encodes_dictionary inner g s n c e) _ _) = (s, n)

items-AllSorted : (xs : Objects) (p : ℕ) (w : Bytes) → EncodesItems xs p w → AllSorted xs
items-AllSorted no_items p w g = tt
items-AllSorted (item x xs) p w (encodes_item first rest g gs e) =
    (value-IsSortedValue x p first g, items-AllSorted xs (p + length first) rest gs)

extract_encoded :
    (inet_pton : Bytes → Option Bytes) (x : Object) (xs : Objects) (n c p : ℕ) (w : Bytes)
    → Encodes x p w
    → value x ≡ list xs n c
    → n ≤ size_max / peer_size
    → extract_peers inet_pton true x ≡ some (peers_of inet_pton xs)
unfolding extract_peers value
extract_encoded inet_pton _ xs n c p w
      (encodes (encodes_list {xs = ys} {n = m} inner g counted _ _) _ _) e fits =
    let same : ys ≡ xs = cc e in
    let count : m ≡ n = cc e in
    ap (λ k. peers_extract_list inet_pton true k ys) counted
    ∙ peers_extract_list_lem inet_pton ys (items-AllSorted ys (suc p) inner g)
        (omega (arith, counted, count, fits))
    ∙ ap (λ z. some (peers_of inet_pton z)) same
extract_encoded inet_pton _ xs n c p w (encodes (encodes_integer g) _ _) e fits = cc
extract_encoded inet_pton _ xs n c p w (encodes (encodes_string g) _ _) e fits = cc
extract_encoded inet_pton _ xs n c p w (encodes (encodes_dictionary inner g s m k e') _ _) e fits =
    cc

root-Encodes :
    (inet_pton : Bytes → Option Bytes) (x o : Object) (xs : Objects) (n c p : ℕ) (w : Bytes)
    → Encodes x p w
    → type_of (value x) ≡ DataType.dictionary
    → find_peers x ≡ some o
    → value o ≡ list xs n c
    → n ≤ size_max / peer_size
    → extract_peers inet_pton true o ≡ some (peers_of inet_pton xs)
unfolding value
root-Encodes inet_pton _ o xs n c p w
      (encodes {start} {n = size}
        (encodes_dictionary {es} {n = m} {c = d} inner g s counted k e')
        at
        sized)
      ty e v fits =
    let (h, _) =
      (find_peers_iff es d start size o s).0
        (ap (λ j. find_peers (object (dictionary es j d) start size)) (sym counted) ∙ e) in
    let i =
      dictionary-Inside es m d start size p w peers_key o
        (encodes (encodes_dictionary inner g s counted k e') at sized) h in
    extract_encoded inet_pton o xs n c (p + length i.before) i.text i.encoded v fits
root-Encodes inet_pton _ o xs n c p w (encodes (encodes_integer g) _ _) ty e v fits = cc ty
root-Encodes inet_pton _ o xs n c p w (encodes (encodes_string g) _ _) ty e v fits = cc ty
root-Encodes inet_pton _ o xs n c p w (encodes (encodes_list inner g m k e') _ _) ty e v fits =
    cc ty

-- From an accepted answer whose peers are a list, whatever else it holds, the peers taken are those
-- of its dictionaries whose `ip` and `port` can be used, in order; memory is granted for the peers, and
-- they fit in it.
pub extract_peers-response :
    (inet_pton : Bytes → Option Bytes) (realloc : Allocator) (bs : Bytes) (x o : Object)
    (xs : Objects) (n c : ℕ)
    → tracker_response_parse realloc (buffer_of bs) ≡ ok x
    → find_peers x ≡ some o
    → value o ≡ list xs n c
    → n ≤ size_max / peer_size
    → extract_peers inet_pton true o ≡ some (peers_of inet_pton xs)
extract_peers-response inet_pton realloc bs x o xs n c e found v fits =
    let (g, ty) = response-Encodes realloc bs x e in
    root-Encodes inet_pton x o xs n c 0 bs g ty found v fits
