-- ===== src/Metadata/Offsets.antt =====
-- Where an entry of a dictionary stands in the document.
use loco.Base.{
  ℕ, suc, ◌+◌, ◌≤◌, ◌≡◌, refl, sym, ap, subst, ◌∙◌, inl, inr, [], ◌∷◌, ◌++◌, append_assoc, Bytes,
  arith, length, length-append, take, drop, drop-append, take-append, drop-drop,
}
use loco.Bencode.Types.{
  Segment, Object, Entries, dictionary, object, no_entries, entry, start_offset, encoded_length,
}
use loco.Bencode.Cursor.{Input}
use loco.Bencode.Grammar.{Encodes, EncodesEntries, encodes, encodes_dictionary, encodes_entry}
use loco.Bencode.Sound.Cursor.{Between}
use loco.Metadata.Lookup.{IsEntry}

-- The object is encoded at some place inside the text that starts at an offset.
pub record Inside (x : Object) (p : ℕ) (w : Bytes) : Type 0 where
  pub before : Bytes
  pub text : Bytes
  pub after : Bytes
  pub split : w ≡ before ++ (text ++ after)
  pub encoded : Encodes x (p + length before) text

Inside-behind :
    (x : Object) (p q : ℕ) (first rest w : Bytes)
    → q ≡ p + length first
    → w ≡ first ++ rest
    → Inside x q rest
    → Inside x p w
Inside-behind x p q first rest w e s i = record {
  before = first ++ i.before;
  text = i.text;
  after = i.after;
  split = s ∙ ap (λ z. first ++ z) i.split ∙ sym (append_assoc first i.before (i.text ++ i.after));
  encoded =
      subst (λ n. Encodes x n i.text) (omega (arith, e, length-append first i.before)) i.encoded;
}

Inside-before :
    (x : Object) (p : ℕ) (first rest w : Bytes)
    → w ≡ first ++ rest
    → Inside x p first
    → Inside x p w
Inside-before x p first rest w s i = record {
  before = i.before;
  text = i.text;
  after = i.after ++ rest;
  split =
      s
      ∙ ap (λ z. z ++ rest) i.split
      ∙ append_assoc i.before (i.text ++ i.after) rest
      ∙ ap (λ z. i.before ++ z) (append_assoc i.text i.after rest);
  encoded = i.encoded;
}

entries-Inside :
    (es : Entries) (p : ℕ) (w : Bytes) (k : Segment) (x : Object)
    → EncodesEntries es p w
    → IsEntry es k x
    → Inside x p w
entries-Inside no_entries p w k x g h = absurd h
entries-Inside (entry j y es) p w k x (encodes_entry key first rest f g more e) (inl (_, it)) =
    record {
      before = key;
      text = first;
      after = rest;
      split = e ∙ append_assoc key first rest;
      encoded = subst (λ z. Encodes z (p + length key) first) it g;
    }
entries-Inside (entry j y es) p w k x (encodes_entry key first rest f g more e) (inr h) =
    Inside-behind x p (p + length (key ++ first)) (key ++ first) rest w refl e
      (entries-Inside es (p + length (key ++ first)) rest k x more h)

pub dictionary-Inside :
    (es : Entries) (n c start size p : ℕ) (w : Bytes) (k : Segment) (x : Object)
    → Encodes (object (dictionary es n c) start size) p w
    → IsEntry es k x
    → Inside x p w
dictionary-Inside es n c start size p w k x (encodes (encodes_dictionary inner g s _ _ e) _ _) h =
    Inside-behind x p (suc p) (b'd' ∷ []) (inner ++ b'e' ∷ []) w (omega arith) e (
      Inside-before x (suc p) inner (b'e' ∷ []) (inner ++ b'e' ∷ []) refl
        (entries-Inside es (suc p) inner k x g h))

stamped_start : (x : Object) (p : ℕ) (w : Bytes) → Encodes x p w → start_offset x ≡ p
unfolding start_offset
stamped_start _ p w (encodes g e n) = e

stamped_length : (x : Object) (p : ℕ) (w : Bytes) → Encodes x p w → encoded_length x ≡ length w
unfolding encoded_length
stamped_length _ p w (encodes g e n) = n

-- The stretch of the input that an object is stamped with.
pub record Spans (input : Input) (x : Object) : Type 0 where
  pub inside : start_offset x + encoded_length x ≤ input.length
  pub encoded :
      Encodes x (start_offset x) (take (encoded_length x) (drop (start_offset x) input.bytes))

pub Inside-Spans :
    (input : Input) (x : Object) (p q : ℕ) (w : Bytes)
    → Between input p w q
    → Inside x p w
    → Spans input x
Inside-Spans input x p q w at i =
    let start = stamped_start x (p + length i.before) i.text i.encoded in
    let size = stamped_length x (p + length i.before) i.text i.encoded in
    record {
      inside = omega (
        arith,
        at.ends,
        at.bounded,
        start,
        size,
        ap length i.split,
        length-append i.before (i.text ++ i.after),
        length-append i.text i.after,
      );
      encoded =
          subst (λ n. Encodes x n (take (encoded_length x) (drop (start_offset x) input.bytes)))
            (sym start)
            (subst (λ t. Encodes x (p + length i.before) t) (sym (here start size)) i.encoded);
    }
  where
    beyond : Bytes
    beyond = drop q input.bytes

    shape : w ++ beyond ≡ i.before ++ (i.text ++ (i.after ++ beyond))
    shape =
        ap (λ z. z ++ beyond) i.split
        ∙ append_assoc i.before (i.text ++ i.after) beyond
        ∙ ap (λ z. i.before ++ z) (append_assoc i.text i.after beyond)

    here :
        start_offset x ≡ p + length i.before
        → encoded_length x ≡ length i.text
        → take (encoded_length x) (drop (start_offset x) input.bytes) ≡ i.text
    here start size =
        ap (λ n. take n (drop (start_offset x) input.bytes)) size
        ∙ ap (take (length i.text)) (
            sym (drop-drop p (length i.before) (start_offset x) input.bytes start)
            ∙ ap (drop (length i.before)) (at.split ∙ shape)
            ∙ drop-append i.before (i.text ++ (i.after ++ beyond)))
        ∙ take-append i.text (i.after ++ beyond)
