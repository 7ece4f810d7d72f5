-- ===== src/Bencode/Sound/Lists.antt =====
-- `parse_bencode_list` and `parse_bencode_dict`, over any sound parser of what they hold.
use loco.Base.{
  ℕ, zero, suc, ◌+◌, ◌-◌, ◌≤◌, ◌<◌, ◌≡◌, refl, sym, subst, ◌∙◌, inl, inr, true, [], ◌∷◌, ◌++◌,
  Option-cases, Bytes, arith, length, ◌==◌,
}
use loco.Bencode.Types.{Object, list, count_items}
use loco.Bencode.Action.{Action}
use loco.Bencode.Cursor.{Input}
use loco.Bencode.Arrays.{Allocator, object_size, reserve}
use loco.Bencode.Containers.{BencodeList, empty_list, store_item, list_loop, parse_bencode_list}
use loco.Bencode.Ensures.{
  Ensures, holds, rejected, Ensures-continue, Ensures-restore, Ensures-require, Ensures-mono,
  Ensures-if, Ensures-choice,
}
use loco.Bencode.Grammar.{
  capacity_for, Encodes, EncodesItems, EncodesValue, encodes_no_items, encodes_list,
}
use loco.Bencode.Sound.Cursor.{
  ByteAt, Between, peek_current_byte-Ensures, consume_current_byte-Ensures, Between-consumed,
  Between-nil, Between-append,
}
use loco.Bencode.Sound.Arrays.{reserve-lt, reserve-capacity_for}
use loco.Bencode.Sound.Keys.{count_items-append, EncodesItems-append}

-- What a sound parser of objects finds from `p` on.
pub record Parsed (input : Input) (p : ℕ) (x : Object) (q : ℕ) : Type 0 where
  pub text : Bytes
  pub encoded : Encodes x p text
  pub some_byte : 0 < length text
  pub between : Between input p text q

module _ (realloc : Allocator) (input : Input) where
  -- The elements read so far stand from `first` up to the position, and fit in their block.
  pub record ListSoFar (first : ℕ) (l : BencodeList) (q : ℕ) : Type 0 where
    pub text : Bytes
    pub encoded : EncodesItems l.items first text
    pub counted : l.count ≡ count_items l.items
    pub roomy : l.count ≤ l.capacity
    pub grown : l.capacity ≡ capacity_for l.count
    pub between : Between input first text q

  pub record ListRead (first : ℕ) (l : BencodeList) (q : ℕ) : Type 0 where
    pub text : Bytes
    pub encoded : EncodesItems l.items first text
    pub counted : l.count ≡ count_items l.items
    pub roomy : l.count ≤ l.capacity
    pub grown : l.capacity ≡ capacity_for l.count
    pub between : Between input first (text ++ b'e' ∷ []) q

  store_item-Ensures :
      (start first : ℕ) (l : BencodeList) (x : Object) (p q : ℕ)
      → ListSoFar first l p
      → Parsed input p x q
      → Ensures start
          (λ l' r. (r ≡ q) × ListSoFar first l' q)
          (store_item realloc input start l x q)
  unfolding store_item
  store_item-Ensures start first l x p q s h =
      elim (Option-cases (reserve realloc object_size q l.count l.capacity)) [
        | inl e ↦ rw (e, store_item) (rejected refl)
        | inr (c, e) ↦
            rw (e, store_item)
              (holds (
                refl,
                record {
                  text = s.text ++ h.text;
                  encoded = EncodesItems-append s.encoded h.encoded s.between.ends;
                  counted = omega (arith, s.counted, count_items-append l.items x);
                  roomy =
                      omega
                        (arith, s.roomy, reserve-lt realloc object_size q l.count l.capacity c e);
                  grown = reserve-capacity_for realloc object_size q l.count l.capacity c e s.grown;
                  between = Between-append input s.between h.between;
                },
              ))
      ]

  module _ (parse_object : Action Object) (start : ℕ)
      (sound : (p : ℕ) → start < p → Ensures p (Parsed input p) (parse_object p)) where
    list_loop-Ensures :
        (f : ℕ) (l : BencodeList) (b p : ℕ)
        → input.length - p < f
        → start < p
        → ByteAt input p b
        → ListSoFar (start + 1) l p
        → Ensures start (ListRead (start + 1)) (list_loop realloc input parse_object f start l b p)
    unfolding list_loop
    list_loop-Ensures zero l b p h k at s = absurd (omega arith)
    list_loop-Ensures (suc f) l b p h k at s =
        Ensures-if (b == b'e')
          (λ last.
            Ensures-continue (Ensures-restore (consume_current_byte-Ensures input p))
              λ c q (e, at').
                Ensures-choice (c == b'e') _ _
                  (λ is_e. holds (record {
                    text = s.text;
                    encoded = s.encoded;
                    counted = s.counted;
                    roomy = s.roomy;
                    grown = s.grown;
                    between = Between-append input s.between (Between-consumed input at' is_e e);
                  }))
                  (λ _. rejected refl))
          (λ _. Ensures-continue (Ensures-restore (sound p k)) λ x q parsed.
            let parsed' : Parsed input p x q = parsed in
            Ensures-continue (store_item-Ensures start (start + 1) l x p q s parsed) λ l' r (e, s').
              Ensures-continue (Ensures-restore (peek_current_byte-Ensures input r))
                λ c t (e', at').
                  list_loop-Ensures f l' c t
                    (omega (arith, e, e', parsed'.between.ends, parsed'.some_byte))
                    (omega (arith, e, e', parsed'.between.ends))
                    (subst (λ n. ByteAt input n c) (sym e') at')
                    (subst (ListSoFar (start + 1) l') (sym (e' ∙ e)) s'))

    -- A list that is accepted: its encoded elements between `l` and `e`.
    pub parse_bencode_list-Ensures :
        Ensures start
          (λ l q.
            (w : Bytes) × EncodesValue (list l.items l.count l.capacity) start w
            × Between input start w q)
          (parse_bencode_list realloc input parse_object start)
    unfolding parse_bencode_list
    parse_bencode_list-Ensures =
        Ensures-continue (Ensures-restore (consume_current_byte-Ensures input start))
          λ first q (e, at). Ensures-require (first == b'l') _ λ is_l.
            Ensures-continue (Ensures-restore (peek_current_byte-Ensures input q)) λ b r (e', at').
              Ensures-mono
                (list_loop-Ensures (suc input.length) empty_list b r (omega arith)
                  (omega (arith, e, e')) (subst (λ n. ByteAt input n b) (sym e') at')
                  (nothing r (e' ∙ e) (at_end q r b e' at')))
                (λ l t done. whole first q l t is_l e at done)
      where
        at_end : (q r b : ℕ) → r ≡ q → ByteAt input q b → r ≤ input.length
        at_end q r b e at = omega (arith, at.inside)

        nothing : (r : ℕ) → r ≡ start + 1 → r ≤ input.length → ListSoFar (start + 1) empty_list r
        nothing r e h = record {
          text = [];
          encoded = encodes_no_items refl;
          counted = refl;
          roomy = omega arith;
          grown = unfold capacity_for in refl;
          between =
              subst (Between input (start + 1) []) (sym e)
                (Between-nil input (start + 1) (omega arith));
        }

        whole :
            (first q : ℕ) (l : BencodeList) (t : ℕ)
            → (first == b'l') ≡ true
            → q ≡ start + 1
            → ByteAt input start first
            → ListRead (start + 1) l t
            → (w : Bytes) × EncodesValue (list l.items l.count l.capacity) start w
              × Between input start w t
        whole first q l t is_l e at done = (
          b'l' ∷ (done.text ++ b'e' ∷ []),
          encodes_list done.text
              (subst (λ n. EncodesItems l.items n done.text) (omega arith) done.encoded)
              done.counted done.grown refl,
          Between-append input (Between-consumed input at is_l refl) done.between,
        )
