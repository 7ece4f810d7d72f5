-- ===== src/Bencode/Sound/Keys.antt =====
-- The order test on dictionary keys, and arrays that grow at the end.
use loco.Base.{
  ℕ, ◌+◌, ◌≡◌, refl, ap, subst, true, [], ◌∷◌, ◌++◌, append_assoc, append-nil, Bytes, arith, length,
  length-append,
}
use loco.Bencode.Types.{
  Segment, Object, Objects, Entries, no_items, item, no_entries, entry, append_item, append_entry,
  count_items, count_entries,
}
use loco.Bencode.Containers.{key_precedes, last_key, sorted_after}
use loco.Bencode.Grammar.{
  KeyBelow, SortedKeys, EncodesString, Encodes, EncodesItems, EncodesEntries, encodes_no_items,
  encodes_item, encodes_no_entries, encodes_entry,
}

pub key_precedes→KeyBelow : (a b : Segment) → key_precedes a b ≡ true → KeyBelow a b
unfolding key_precedes
key_precedes→KeyBelow [] [] h = cc
key_precedes→KeyBelow [] (y ∷ ys) h = tt
key_precedes→KeyBelow (x ∷ xs) [] h = cc
key_precedes→KeyBelow (x ∷ xs) (y ∷ ys) h = ground (arith, key_precedes→KeyBelow xs ys)

pub KeyBelow→key_precedes : (a b : Segment) → KeyBelow a b → key_precedes a b ≡ true
unfolding key_precedes
KeyBelow→key_precedes [] [] h = absurd h
KeyBelow→key_precedes [] (y ∷ ys) h = refl
KeyBelow→key_precedes (x ∷ xs) [] h = absurd h
KeyBelow→key_precedes (x ∷ xs) (y ∷ ys) h = ground (arith, KeyBelow→key_precedes xs ys)

pub SortedKeys-append :
    (es : Entries) (k : Segment) (x : Object)
    → sorted_after (last_key es) k ≡ true
    → SortedKeys es
    → SortedKeys (append_entry es k x)
unfolding last_key sorted_after
SortedKeys-append no_entries k x h s = tt
SortedKeys-append (entry j y no_entries) k x h s = (key_precedes→KeyBelow j k h, tt)
SortedKeys-append (entry j y (entry i z es)) k x h s =
    (s.0, SortedKeys-append (entry i z es) k x h s.1)

pub count_items-append :
    (xs : Objects) (x : Object) → count_items (append_item xs x) ≡ count_items xs + 1
count_items-append no_items x = omega arith
count_items-append (item y ys) x = omega (arith, count_items-append ys x)

pub count_entries-append :
    (es : Entries) (k : Segment) (x : Object)
    → count_entries (append_entry es k x) ≡ count_entries es + 1
count_entries-append no_entries k x = omega arith
count_entries-append (entry j y es) k x = omega (arith, count_entries-append es k x)

pub EncodesItems-append :
    {xs : Objects} {p q : ℕ} {x : Object} {v w : Bytes}
    → EncodesItems xs p w
    → Encodes x q v
    → q ≡ p + length w
    → EncodesItems (append_item xs x) p (w ++ v)
EncodesItems-append {p} {q} {x} {v} {w} (encodes_no_items e) h s =
    let same : q ≡ p = omega (arith, ap length e) in
    encodes_item v [] (subst (λ n. Encodes x n v) same h) (encodes_no_items refl)
      (rw (e, append-nil))
EncodesItems-append {v} (encodes_item first rest y ys e) h s =
    encodes_item first (rest ++ v) y
      (EncodesItems-append ys h (omega (arith, ap length e, length-append first rest)))
      (rw (e, append_assoc))

pub EncodesEntries-append :
    {es : Entries} {p q : ℕ} {k : Segment} {x : Object} {key v w : Bytes}
    → EncodesEntries es p w
    → EncodesString k key
    → Encodes x (q + length key) v
    → q ≡ p + length w
    → EncodesEntries (append_entry es k x) p (w ++ (key ++ v))
EncodesEntries-append {p} {q} {x} {key} {v} (encodes_no_entries e) g h s =
    let same : q ≡ p = omega (arith, ap length e) in
    encodes_entry key v [] g (subst (λ n. Encodes x (n + length key) v) same h)
      (encodes_no_entries refl) (rw (e, append-nil))
EncodesEntries-append {key} {v} (encodes_entry j first rest f y ys e) g h s =
    encodes_entry j first (rest ++ (key ++ v)) f y
      (EncodesEntries-append ys g h (omega (arith, ap length e, length-append (j ++ first) rest)))
      (rw (e, append_assoc))
