-- ===== src/Bencode/Sound/Dictionaries.antt =====
-- `parse_bencode_dict`, over any sound parser of the values that it holds.
use loco.Base.{
  ℕ, zero, suc, ◌+◌, ◌-◌, ◌≤◌, ◌<◌, ◌≡◌, refl, sym, subst, ◌∙◌, inl, inr, true, [], ◌∷◌, ◌++◌,
  Option-cases, Bytes, arith, length, ◌==◌,
}
use loco.Bencode.Types.{Segment, Object, dictionary, count_entries}
use loco.Bencode.Action.{Action}
use loco.Bencode.Cursor.{Input}
use loco.Bencode.Arrays.{Allocator, entry_size, reserve}
use loco.Bencode.Containers.{
  BencodeDictionary, empty_dictionary, last_key, sorted_after, store_entry, dict_loop,
  parse_bencode_dict,
}
use loco.Bencode.Ensures.{
  Ensures, holds, rejected, Ensures-continue, Ensures-restore, Ensures-require, Ensures-mono,
  Ensures-if,
}
use loco.Bencode.Grammar.{
  capacity_for, SortedKeys, EncodesString, Encodes, EncodesEntries, EncodesValue,
  encodes_no_entries, encodes_dictionary,
}
use loco.Bencode.Sound.Cursor.{
  ByteAt, Between, peek_current_byte-Ensures, consume_current_byte-Ensures, Between-consumed,
  Between-nil, Between-append,
}
use loco.Bencode.Sound.Strings.{parse_bencode_string-Ensures}
use loco.Bencode.Sound.Arrays.{reserve-lt, reserve-capacity_for}
use loco.Bencode.Sound.Keys.{SortedKeys-append, count_entries-append, EncodesEntries-append}
use loco.Bencode.Sound.Lists.{Parsed}

module _ (realloc : Allocator) (input : Input) where
  -- The entries read so far stand from `first` up to the position, in key order, and fit in their
  -- block.
  pub record DictionarySoFar (first : ℕ) (d : BencodeDictionary) (q : ℕ) : Type 0 where
    pub text : Bytes
    pub encoded : EncodesEntries d.entries first text
    pub sorted : SortedKeys d.entries
    pub counted : d.count ≡ count_entries d.entries
    pub roomy : d.count ≤ d.capacity
    pub grown : d.capacity ≡ capacity_for d.count
    pub between : Between input first text q

  pub record DictionaryRead (first : ℕ) (d : BencodeDictionary) (q : ℕ) : Type 0 where
    pub text : Bytes
    pub encoded : EncodesEntries d.entries first text
    pub sorted : SortedKeys d.entries
    pub counted : d.count ≡ count_entries d.entries
    pub roomy : d.count ≤ d.capacity
    pub grown : d.capacity ≡ capacity_for d.count
    pub between : Between input first (text ++ b'e' ∷ []) q

  store_entry-Ensures :
      (start first : ℕ) (d : BencodeDictionary) (k : Segment) (key : Bytes) (x : Object) (p m q : ℕ)
      → DictionarySoFar first d p
      → EncodesString k key
      → Between input p key m
      → sorted_after (last_key d.entries) k ≡ true
      → Parsed input m x q
      → Ensures start
          (λ d' r. (r ≡ q) × DictionarySoFar first d' q)
          (store_entry realloc input start d k x q)
  unfolding store_entry
  store_entry-Ensures start first d k key x p m q s g b after h =
      elim (Option-cases (reserve realloc entry_size q d.count d.capacity)) [
        | inl e ↦ rw (e, store_entry) (rejected refl)
        | inr (c, e) ↦
            rw (e, store_entry)
              (holds (
                refl,
                record {
                  text = s.text ++ (key ++ h.text);
                  encoded =
                      EncodesEntries-append s.encoded g
                        (subst (λ n. Encodes x n h.text) b.ends h.encoded) s.between.ends;
                  sorted = SortedKeys-append d.entries k x after s.sorted;
                  counted = omega (arith, s.counted, count_entries-append d.entries k x);
                  roomy =
                      omega
                        (arith, s.roomy, reserve-lt realloc entry_size q d.count d.capacity c e);
                  grown = reserve-capacity_for realloc entry_size q d.count d.capacity c e s.grown;
                  between = Between-append input s.between (Between-append input b h.between);
                },
              ))
      ]

  module _ (sized : input.length ≤ length input.bytes) (parse_object : Action Object) (start : ℕ)
      (sound : (p : ℕ) → start < p → Ensures p (Parsed input p) (parse_object p)) where
    dict_loop-Ensures :
        (f : ℕ) (d : BencodeDictionary) (b p : ℕ)
        → input.length - p < f
        → start < p
        → ByteAt input p b
        → DictionarySoFar (start + 1) d p
        → Ensures start
            (DictionaryRead (start + 1))
            (dict_loop realloc input parse_object f start d b p)
    unfolding dict_loop
    dict_loop-Ensures zero d b p h k at s = absurd (omega arith)
    dict_loop-Ensures (suc f) d b p h k at s =
        Ensures-if (b == b'e')
          (λ last.
            Ensures-continue (Ensures-restore (consume_current_byte-Ensures input p))
              λ c q (e, at'). holds (record {
                text = s.text;
                encoded = s.encoded;
                sorted = s.sorted;
                counted = s.counted;
                roomy = s.roomy;
                grown = s.grown;
                between = Between-append input s.between (Between-consumed input at last e);
              }))
          (λ _.
            Ensures-continue (Ensures-restore (parse_bencode_string-Ensures input p sized))
              λ key m (w, g, b').
                let b'' : Between input p w m = b' in
                Ensures-require (sorted_after (last_key d.entries) key) _ λ after.
                  Ensures-continue (Ensures-restore (sound m (omega (arith, b''.ends))))
                    λ x q parsed.
                      let parsed' : Parsed input m x q = parsed in
                      Ensures-continue
                        (store_entry-Ensures start (start + 1) d key w x p m q s g b' after parsed)
                        λ d' r (e, s').
                          Ensures-continue (Ensures-restore (peek_current_byte-Ensures input r))
                            λ c t (e', at').
                              dict_loop-Ensures f d' c t
                                (omega
                                  (arith, e, e', b''.ends, parsed'.between.ends, parsed'.some_byte))
                                (omega (arith, e, e', b''.ends, parsed'.between.ends))
                                (subst (λ n. ByteAt input n c) (sym e') at')
                                (subst (DictionarySoFar (start + 1) d') (sym (e' ∙ e)) s'))

    -- A dictionary that is accepted: its encoded entries, in key order, between `d` and `e`.
    pub parse_bencode_dict-Ensures :
        Ensures start
          (λ d q.
            (w : Bytes) × EncodesValue (dictionary d.entries d.count d.capacity) start w
            × Between input start w q)
          (parse_bencode_dict realloc input parse_object start)
    unfolding parse_bencode_dict
    parse_bencode_dict-Ensures =
        Ensures-continue (Ensures-restore (consume_current_byte-Ensures input start))
          λ first q (e, at). Ensures-require (first == b'd') _ λ is_d.
            Ensures-continue (Ensures-restore (peek_current_byte-Ensures input q)) λ b r (e', at').
              Ensures-mono
                (dict_loop-Ensures (suc input.length) empty_dictionary b r (omega arith)
                  (omega (arith, e, e')) (subst (λ n. ByteAt input n b) (sym e') at')
                  (nothing r (e' ∙ e) (at_end q r b e' at')))
                (λ d t done. whole first q d t is_d e at done)
      where
        at_end : (q r b : ℕ) → r ≡ q → ByteAt input q b → r ≤ input.length
        at_end q r b e at = omega (arith, at.inside)

        nothing :
            (r : ℕ)
            → r ≡ start + 1
            → r ≤ input.length
            → DictionarySoFar (start + 1) empty_dictionary r
        nothing r e h = record {
          text = [];
          encoded = encodes_no_entries refl;
          sorted = tt;
          counted = refl;
          roomy = omega arith;
          grown = unfold capacity_for in refl;
          between =
              subst (Between input (start + 1) []) (sym e)
                (Between-nil input (start + 1) (omega arith));
        }

        whole :
            (first q : ℕ) (d : BencodeDictionary) (t : ℕ)
            → (first == b'd') ≡ true
            → q ≡ start + 1
            → ByteAt input start first
            → DictionaryRead (start + 1) d t
            → (w : Bytes) × EncodesValue (dictionary d.entries d.count d.capacity) start w
              × Between input start w t
        whole first q d t is_d e at done = (
          b'd' ∷ (done.text ++ b'e' ∷ []),
          encodes_dictionary done.text
              (subst (λ n. EncodesEntries d.entries n done.text) (omega arith) done.encoded)
              done.sorted done.counted done.grown refl,
          Between-append input (Between-consumed input at is_d refl) done.between,
        )
