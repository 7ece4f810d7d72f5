-- ===== src/Metadata/Laws.antt =====
-- src/torrent_metadata.c: what is extracted stands in the document.
use loco.Base.{
  ℕ, ◌%◌, ◌≤◌, ◌≡◌, refl, sym, ap, subst, ◌∙◌, inl, inr, Bool, true, Bool-cases, Option, none, some,
  Bytes, arith, length, ==_iff,
}
use loco.Bencode.Types.{
  Segment, DataType, Object, Value, Entries, object, integer, byte_string, list, dictionary, value,
  type_of, start_offset, encoded_length, count_entries,
}
use loco.Bencode.Action.{ok}
use loco.Bencode.Cursor.{Input, ParserState}
use loco.Bencode.Arrays.{Allocator}
use loco.Bencode.Parser.{parse_bencode_buffer}
use loco.Bencode.Grammar.{Encodes, encodes, encodes_dictionary}
use loco.Bencode.Sound.Lists.{Parsed}
use loco.Bencode.Sound.Buffer.{parse_bencode_buffer_sound}
use loco.Metadata.{
  ◌>>=◌, find_loop, only_if, find_entry_in_dictionary, info_key, announce_key, name_key, length_key,
  piece_length_key, pieces_key, integer_of, segment_of, is_natural, is_positive,
  torrent_metadata_find_info, torrent_metadata_find_announce, torrent_metadata_find_name,
  torrent_metadata_find_length, torrent_metadata_find_piece_length, torrent_metadata_find_pieces,
  TorrentInfo, TorrentMetadata, info_of, torrent_metadata_extract_info, torrent_metadata_extract,
}
use loco.Metadata.Lookup.{IsEntry, find_loop-found}
use loco.Metadata.Offsets.{Spans, dictionary-Inside, Inside-Spans}

-- An entry of that key has that value.
pub record HasField (es : Entries) (k : Segment) (v : Value) : Type 0 where
  pub holder : Object
  pub entry_of : IsEntry es k holder
  pub held : value holder ≡ v

-- What is taken from the entries of an info dictionary, and the ranges that are checked.
pub record InfoFields (es : Entries) (i : TorrentInfo) : Type 0 where
  pub name : HasField es name_key (byte_string i.name)
  pub total_length : HasField es length_key (integer i.length)
  pub natural : is_natural i.length ≡ true
  pub piece_length : HasField es piece_length_key (integer i.piece_length)
  pub positive : is_positive i.piece_length ≡ true
  pub pieces : HasField es pieces_key (byte_string i.pieces)
  pub hashes : length i.pieces % 20 ≡ 0

>>=-some :
    {A B : Type 0} (o : Option A) (f : A → Option B) (b : B)
    → (o >>= f) ≡ some b
    → (a : A) × (o ≡ some a) × (f a ≡ some b)
>>=-some none f b e = cc
>>=-some (some a) f b e = (a, refl, e)

only_if-some :
    (f : Object → Bool) (o : Option Object) (x : Object)
    → only_if f o ≡ some x
    → (o ≡ some x) × (f x ≡ true)
only_if-some f none x e = cc
only_if-some f (some y) x e = elim (Bool-cases (f y)) [
  | inl passes ↦
      let same : y ≡ x = ground (arith, e, passes) in
      (ap some same, subst (λ z. f z ≡ true) same passes)
  | inr bad ↦ absurd (ground (arith, e, bad))
]

integer_of-value : (v : Value) → type_of v ≡ DataType.integer → v ≡ integer (integer_of v)
integer_of-value (integer i) e = refl
integer_of-value (byte_string s) e = cc
integer_of-value (list xs n c) e = cc
integer_of-value (dictionary es n c) e = cc

segment_of-value : (v : Value) → type_of v ≡ DataType.byte_string → v ≡ byte_string (segment_of v)
segment_of-value (integer i) e = cc
segment_of-value (byte_string s) e = refl
segment_of-value (list xs n c) e = cc
segment_of-value (dictionary es n c) e = cc

module _ (es : Entries) (n c start size : ℕ) (counted : n ≡ count_entries es) where
  abbrev dict : Object
  dict = object (dictionary es n c) start size

  find_entry_in_dictionary-found :
      (k : Segment) (t : DataType) (x : Object)
      → find_entry_in_dictionary dict k t ≡ some x
      → IsEntry es k x × (type_of (value x) ≡ t)
  unfolding find_entry_in_dictionary value
  find_entry_in_dictionary-found k t x e =
      find_loop-found es k t x (ap (λ m. find_loop m es k t) (sym counted) ∙ e)

  integer-HasField :
      (k : Segment) (x : Object)
      → find_entry_in_dictionary dict k DataType.integer ≡ some x
      → HasField es k (integer (integer_of (value x)))
  integer-HasField k x e =
      let (h, ty) = find_entry_in_dictionary-found k DataType.integer x e in
      record { holder = x; entry_of = h; held = integer_of-value (value x) ty }

  string-HasField :
      (k : Segment) (x : Object)
      → find_entry_in_dictionary dict k DataType.byte_string ≡ some x
      → HasField es k (byte_string (segment_of (value x)))
  string-HasField k x e =
      let (h, ty) = find_entry_in_dictionary-found k DataType.byte_string x e in
      record { holder = x; entry_of = h; held = segment_of-value (value x) ty }

  info_of-InfoFields :
      (i : TorrentInfo)
      → info_of dict ≡ some i
      → InfoFields es i
        × (i.info_span ≡ record { start_offset = start_offset dict; length = encoded_length dict })
  unfolding info_of torrent_metadata_find_name torrent_metadata_find_length
      torrent_metadata_find_piece_length torrent_metadata_find_pieces
  info_of-InfoFields i e =
      let (x1, e1, r1) = >>=-some (torrent_metadata_find_name dict) _ i e in
      let (x2, e2, r2) = >>=-some (torrent_metadata_find_length dict) _ i r1 in
      let (x3, e3, r3) = >>=-some (torrent_metadata_find_piece_length dict) _ i r2 in
      let (x4, e4, r4) = >>=-some (torrent_metadata_find_pieces dict) _ i r3 in
      let (f2, natural) = only_if-some _ _ x2 e2 in
      let (f3, positive) = only_if-some _ _ x3 e3 in
      let (f4, hashes) = only_if-some _ _ x4 e4 in
      subst
        (λ (j : TorrentInfo).
          InfoFields es j
          × (j.info_span
              ≡ record { start_offset = start_offset dict; length = encoded_length dict }))
        (cc r4)
        (
          record {
            name = string-HasField name_key x1 e1;
            total_length = integer-HasField length_key x2 f2;
            natural = natural;
            piece_length = integer-HasField piece_length_key x3 f3;
            positive = positive;
            pieces = string-HasField pieces_key x4 f4;
            hashes = (==_iff _ _).0 hashes;
          },
          refl,
        )

-- What is extracted from a document: the fields stand in it, in the ranges that are checked, and the
-- span is the encoding of the info dictionary, inside the input.
pub record FromDocument (input : Input) (es : Entries) (m : TorrentMetadata) : Type 0 where
  pub announced : HasField es announce_key (byte_string m.announce)
  pub info_entries : Entries
  pub count : ℕ
  pub capacity : ℕ
  pub info_dict : Object
  pub info_value : value info_dict ≡ dictionary info_entries count capacity
  pub in_root : IsEntry es info_key info_dict
  pub fields : InfoFields info_entries m.info
  pub spanned :
      m.info.info_span
      ≡ record { start_offset = start_offset info_dict; length = encoded_length info_dict }
  pub encoded : Spans input info_dict

counted_entries :
    (es : Entries) (n c start size p : ℕ) (w : Bytes)
    → Encodes (object (dictionary es n c) start size) p w
    → n ≡ count_entries es
counted_entries es n c start size p w (encodes (encodes_dictionary inner g s e _ _) _ _) = e

info_part :
    (input : Input) (es : Entries) (info : Object) (i : TorrentInfo) (m : TorrentMetadata)
    → IsEntry es info_key info
    → type_of (value info) ≡ DataType.dictionary
    → Spans input info
    → info_of info ≡ some i
    → m.info ≡ i
    → HasField es announce_key (byte_string m.announce)
    → FromDocument input es m
unfolding value start_offset
info_part input es (object (dictionary fs n c) start size) i m h ty spans e same announced =
    let (fields, span) =
      info_of-InfoFields fs n c start size (counted_entries fs n c start size start _ spans.encoded)
        i e in
    record {
      announced = announced;
      info_entries = fs;
      count = n;
      capacity = c;
      info_dict = object (dictionary fs n c) start size;
      info_value = refl;
      in_root = h;
      fields = subst (InfoFields fs) (sym same) fields;
      spanned = ap (λ (j : TorrentInfo). j.info_span) same ∙ span;
      encoded = spans;
    }
info_part input es (object (integer i') start size) i m h ty spans e same announced = cc
info_part input es (object (byte_string i') start size) i m h ty spans e same announced = cc
info_part input es (object (list i' n c) start size) i m h ty spans e same announced = cc

-- Only a dictionary gives metadata.
root_part :
    (input : Input) (p q : ℕ) (x : Object) (m : TorrentMetadata)
    → Parsed input p x q
    → torrent_metadata_extract x ≡ some m
    → (es : Entries) × (n : ℕ) × (c : ℕ) × (value x ≡ dictionary es n c) × FromDocument input es m
unfolding torrent_metadata_extract torrent_metadata_extract_info torrent_metadata_find_announce
    torrent_metadata_find_info value
root_part input p q (object (dictionary es n c) start size) m h e =
    let counted = counted_entries es n c start size p h.text h.encoded in
    let (a, ea, ra) =
      >>=-some (torrent_metadata_find_announce (object (dictionary es n c) start size)) _ m e in
    let (i, ei, ri) =
      >>=-some (torrent_metadata_extract_info (object (dictionary es n c) start size)) _ m ra in
    let (d, ed, rd) =
      >>=-some (torrent_metadata_find_info (object (dictionary es n c) start size)) _ i ei in
    let (in_root, ty) =
      find_entry_in_dictionary-found es n c start size counted info_key DataType.dictionary d ed in
    let same : record { announce = segment_of (value a); info = i } ≡ m = cc ri in
    (
      es,
      n,
      c,
      refl,
      info_part input es d i m in_root ty
          (Inside-Spans input d p q h.text h.between
            (dictionary-Inside es n c start size p h.text info_key d h.encoded in_root))
          rd (ap (λ (z : TorrentMetadata). z.info) (sym same))
          (subst (λ (z : TorrentMetadata). HasField es announce_key (byte_string z.announce)) same
            (string-HasField es n c start size counted announce_key a ea)),
    )
root_part input p q (object (integer i) start size) m h e = cc
root_part input p q (object (byte_string i) start size) m h e = cc
root_part input p q (object (list i n c) start size) m h e = cc

-- The metadata of a parsed document, on an input whose block holds as many bytes as its length says,
-- is taken from it: the announce address and the fields of the
-- info dictionary are entries of the document in the ranges that are checked, and the span is the
-- place of the info dictionary's encoding, inside the input.
pub torrent_metadata_extract_lem :
    (realloc : Allocator) (s s' : ParserState) (x : Object) (m : TorrentMetadata)
    → s.input.length ≤ length s.input.bytes
    → parse_bencode_buffer realloc s ≡ (ok x, s')
    → torrent_metadata_extract x ≡ some m
    → (es : Entries) × (n : ℕ) × (c : ℕ) × (value x ≡ dictionary es n c) × FromDocument s.input es m
torrent_metadata_extract_lem realloc s s' x m sized e =
    let (same, parsed) = parse_bencode_buffer_sound realloc s sized x s' e in
    root_part s.input s.position s'.position x m parsed
