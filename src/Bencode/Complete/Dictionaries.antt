-- ===== src/Bencode/Complete/Dictionaries.antt =====
-- Every encoded dictionary is accepted, over any parser that accepts the values in it.

use loco.Base.{
  ℕ, zero, suc, ◌+◌, ◌-◌, ◌≤◌, ◌<◌, ◌≡◌, refl, sym, ap, subst, ◌∙◌, true, false, none, some, [],
  ◌∷◌, ◌++◌, append_assoc, Option, Bytes, arith, size_max, length, length-append, ◌==◌,
}
use loco.Bencode.Types.{Segment, Object, Entries, no_entries, entry, append_entry, count_entries}
use loco.Bencode.Action.{ok, Action}
use loco.Bencode.Cursor.{Input}
use loco.Bencode.Arrays.{Allocator, entry_size}
use loco.Bencode.Containers.{
  BencodeDictionary, empty_dictionary, last_key, sorted_after, store_entry, dict_loop,
  parse_bencode_dict,
}
use loco.Bencode.Grammar.{
  capacity_for, KeyBelow, SortedKeys, EncodesString, EncodesEntries, encodes_no_entries,
  encodes_entry,
}
use loco.Bencode.Sound.Cursor.{Between}
use loco.Bencode.Sound.Keys.{KeyBelow→key_precedes}
use loco.Bencode.Complete.Cursor.{
  consume_here, peek_here, Between-tail, Between-first, Between-rest,
}
use loco.Bencode.Complete.Strings.{parse_bencode_string-Between}
use loco.Bencode.Complete.Arrays.{document_max, Grants, reserve-capacity_for_self}
use loco.Bencode.Complete.Heads.{string-Head}
use loco.Bencode.Complete.Lists.{Accepts, first_byte}

abbrev append_entries : Entries → Entries → Entries
append_entries no_entries ys = ys
append_entries (entry k x es) ys = entry k x (append_entries es ys)

append_entries-nil : (es : Entries) → append_entries es no_entries ≡ es
append_entries-nil no_entries = refl
append_entries-nil (entry k x es) = ap (entry k x) (append_entries-nil es)

append_entries-append_entry :
    (es : Entries) (k : Segment) (x : Object) (ys : Entries)
    → append_entries (append_entry es k x) ys ≡ append_entries es (entry k x ys)
append_entries-append_entry no_entries k x ys = refl
append_entries-append_entry (entry j z es) k x ys =
    ap (entry j z) (append_entries-append_entry es k x ys)

last_key-append :
    (es : Entries) (k : Segment) (x : Object) → last_key (append_entry es k x) ≡ some k
unfolding last_key
last_key-append no_entries k x = refl
last_key-append (entry j y no_entries) k x = refl
last_key-append (entry j y (entry i z es)) k x = last_key-append (entry i z es) k x

-- The keys are sorted, and come after the key before them.
abbrev SortedFrom : Option Segment → Entries → Type 0
SortedFrom none es = SortedKeys es
SortedFrom (some j) no_entries = Unit {0}
SortedFrom (some j) (entry k x es) = KeyBelow j k × SortedKeys (entry k x es)

SortedFrom-head :
    (o : Option Segment) (k : Segment) (x : Object) (es : Entries)
    → SortedFrom o (entry k x es)
    → (sorted_after o k ≡ true) × SortedFrom (some k) es
unfolding sorted_after
SortedFrom-head none k x no_entries s = (refl, tt)
SortedFrom-head none k x (entry j y es) s = (refl, s)
SortedFrom-head (some i) k x no_entries s = (KeyBelow→key_precedes i k s.0, tt)
SortedFrom-head (some i) k x (entry j y es) s = (KeyBelow→key_precedes i k s.0, s.1)

-- A dictionary with more entries added, each at the end.
abbrev extend_dictionary : BencodeDictionary → Entries → BencodeDictionary
extend_dictionary d es = record {
  entries = append_entries d.entries es;
  capacity = capacity_for (d.count + count_entries es);
  count = d.count + count_entries es;
}

extend_dictionary-nil :
    (d : BencodeDictionary) → d.capacity ≡ capacity_for d.count → extend_dictionary d no_entries ≡ d
extend_dictionary-nil d h =
    let same : d.count + 0 ≡ d.count = omega arith in rw (append_entries-nil d.entries, same, ← h)

abbrev grown_dictionary : BencodeDictionary → Segment → Object → BencodeDictionary
grown_dictionary d k x = record {
  entries = append_entry d.entries k x;
  capacity = capacity_for (suc d.count);
  count = d.count + 1;
}

extend_dictionary-entry :
    (d : BencodeDictionary) (k : Segment) (x : Object) (es : Entries)
    → extend_dictionary (grown_dictionary d k x) es ≡ extend_dictionary d (entry k x es)
extend_dictionary-entry d k x es =
    let same : d.count + 1 + count_entries es ≡ d.count + suc (count_entries es) = omega arith in
    rw (append_entries-append_entry d.entries k x es, same)

EncodesString-head :
    {s : Segment} {w : Bytes}
    → EncodesString s w
    → (b : ℕ) × (u : Bytes) × (w ≡ b ∷ u) × ((b == b'e') ≡ false)
EncodesString-head {s} {w} g =
    let h = string-Head g.digits (b':' ∷ s) w g.some_digit g.all_digits g.written in
    (h.byte, h.others, h.shape, h.not_end)

module _ (realloc : Allocator) (input : Input) (all : Grants realloc)
    (small : input.length ≤ document_max) (start : ℕ) (parse : Action Object)
    (accepts : Accepts input start parse) where
  store_entry_lem :
      (d : BencodeDictionary) (k : Segment) (x : Object) (p : ℕ)
      → d.capacity ≡ capacity_for d.count
      → d.count ≤ document_max
      → store_entry realloc input start d k x p ≡ (ok (grown_dictionary d k x), p)
  unfolding store_entry
  store_entry_lem d k x p h b =
      rw
        (h, reserve-capacity_for_self realloc entry_size p d.count all (omega arith) b, store_entry)

  string_small :
      (s : Segment) (w : Bytes) (p q : ℕ)
      → EncodesString s w
      → Between input p w q
      → length s ≤ size_max
  string_small s w p q g at =
      omega (arith, at.ends, at.bounded, ap length g.written, length-append g.digits (b':' ∷ s))

  dict_loop-Between :
      (f : ℕ) (d : BencodeDictionary) (b p q : ℕ) (es : Entries) (w u : Bytes)
      → input.length - p < f
      → start < p
      → EncodesEntries es p w
      → SortedFrom (last_key d.entries) es
      → w ++ b'e' ∷ [] ≡ b ∷ u
      → Between input p (w ++ b'e' ∷ []) q
      → d.capacity ≡ capacity_for d.count
      → d.count + length w ≤ document_max
      → dict_loop realloc input parse f start d b p ≡ (ok (extend_dictionary d es), q)
  unfolding dict_loop
  dict_loop-Between zero d b p q es w u h k g s e at c m =
      absurd (omega (arith, at.ends, at.bounded, length-append w (b'e' ∷ [])))
  dict_loop-Between (suc f) d b p q no_entries w u h k (encodes_no_entries z) s e at c m =
      rw (last, consume_here input closing, extend_dictionary-nil d c)
        (ap (λ n. (ok d, n)) (sym closing.ends))
    where
      last : b ≡ b'e'
      last = let e' : b'e' ∷ [] ≡ b ∷ u = rw z at e in cc

      closing : Between input p (b'e' ∷ []) q
      closing = subst (λ t. Between input p (t ++ b'e' ∷ []) q) z at
  dict_loop-Between (suc f) d b p q (entry j x es) w u h k (encodes_entry key v t gk g gs z) s e at
        c m =
      rw
        (
          first,
          head.3,
          parse_bencode_string-Between input p (p + length key) j key gk
              (string_small j key p (p + length key) gk key_at) key_at,
          after.0,
          accepts (p + length key) (p + length (key ++ v)) x v (omega arith) g value_at,
          store_entry_lem d j x (p + length (key ++ v)) c (omega arith),
          peek_here input (subst (λ s. Between input (p + length (key ++ v)) s q) next.2 there),
        )
        (dict_loop-Between f (grown_dictionary d j x) next.0 (p + length (key ++ v)) q es t next.1
            (omega (arith, there.ends, there.bounded, some_byte, length-append key v)) (omega arith)
            gs (subst (λ o. SortedFrom o es) (sym (last_key-append d.entries j x)) after.1) next.2
            there (ap capacity_for (omega arith))
            (omega (arith, ap length z, length-append (key ++ v) t, length-append key v, some_byte))
          ∙ ap (λ l'. (ok l', q)) (extend_dictionary-entry d j x es))
    where
      after : (sorted_after (last_key d.entries) j ≡ true) × SortedFrom (some j) es
      after = SortedFrom-head (last_key d.entries) j x es s

      here : Between input p ((key ++ v) ++ (t ++ b'e' ∷ [])) q
      here =
          subst (λ s. Between input p s q)
            (ap (λ s. s ++ b'e' ∷ []) z ∙ append_assoc (key ++ v) t (b'e' ∷ [])) at

      pair_at : Between input p (key ++ v) (p + length (key ++ v))
      pair_at = Between-first input (key ++ v) (t ++ b'e' ∷ []) here

      key_at : Between input p key (p + length key)
      key_at = Between-first input key v pair_at

      value_at : Between input (p + length key) v (p + length (key ++ v))
      value_at = Between-rest input key v pair_at

      there : Between input (p + length (key ++ v)) (t ++ b'e' ∷ []) q
      there = Between-rest input (key ++ v) (t ++ b'e' ∷ []) here

      next : (b' : ℕ) × (u' : Bytes) × (t ++ b'e' ∷ [] ≡ b' ∷ u')
      next = first_byte t b'e'

      head : (b' : ℕ) × (u' : Bytes) × (key ≡ b' ∷ u') × ((b' == b'e') ≡ false)
      head = EncodesString-head gk

      first : b ≡ head.0
      first =
          let e' : head.0 ∷ (((head.1 ++ v) ++ t) ++ b'e' ∷ []) ≡ b ∷ u = rw (z, head.2) at e in cc

      some_byte : 0 < length key
      some_byte = omega (arith, ap length head.2)

  pub parse_bencode_dict-Between :
      (q : ℕ) (es : Entries) (inner : Bytes)
      → EncodesEntries es (suc start) inner
      → SortedKeys es
      → Between input start (b'd' ∷ (inner ++ b'e' ∷ [])) q
      → parse_bencode_dict realloc input parse start ≡ (
        ok (record {
          entries = es;
          capacity = capacity_for (count_entries es);
          count = count_entries es;
        }),
        q,
      )
  unfolding parse_bencode_dict last_key
  parse_bencode_dict-Between q es inner g s at =
      rw
        (
          consume_here input at,
          peek_here input (subst (λ s. Between input (start + 1) s q) next.2 inside),
        )
        (dict_loop-Between (suc input.length) empty_dictionary next.0 (start + 1) q es inner next.1
            (omega arith) (omega arith) (subst (λ n. EncodesEntries es n inner) (omega arith) g) s
            next.2 inside (unfold capacity_for in refl)
            (omega (arith, inside.ends, inside.bounded, length-append inner (b'e' ∷ [])))
          ∙ ap (λ n. (ok (record { entries = es; capacity = capacity_for n; count = n }), q))
              (omega arith))
    where
      inside : Between input (start + 1) (inner ++ b'e' ∷ []) q
      inside = Between-tail input at

      next : (b' : ℕ) × (u' : Bytes) × (inner ++ b'e' ∷ [] ≡ b' ∷ u')
      next = first_byte inner b'e'
