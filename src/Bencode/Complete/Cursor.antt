-- ===== src/Bencode/Complete/Cursor.antt =====
-- Reading what is known to stand at the parser's position.
use loco.Base.{
  ℕ, zero, suc, ◌+◌, ◌≡◌, refl, sym, ap, ◌∙◌, true, List, [], ◌∷◌, ◌++◌, append_assoc, some, Bytes,
  arith, length, get_elem?, drop, take-append, drop-append, length-append, drop-drop, lt→ltb,
}
use loco.Bencode.Action.{ok}
use loco.Bencode.Cursor.{
  Input, peek_current_byte, consume_current_byte, bytes_exist_from_current_parser_position,
  read_bencode_string,
}
use loco.Bencode.Sound.Cursor.{rest, Between}

get_elem?-drop {ℓ} :
    {A : Type ℓ} (xs : List A) (p : ℕ) (x : A) (t : List A)
    → drop p xs ≡ x ∷ t
    → get_elem? xs p ≡ some x
get_elem?-drop [] zero x t e = cc
get_elem?-drop [] (suc p) x t e = cc
get_elem?-drop (y ∷ ys) zero x t e = cc
get_elem?-drop (y ∷ ys) (suc p) x t e = get_elem?-drop ys p x t e

module _ (input : Input) where
  -- The two parts of a stretch of the input.
  pub Between-rest :
      {p q : ℕ} (v w : Bytes) → Between input p (v ++ w) q → Between input (p + length v) w q
  Between-rest {p} {q} v w h = record {
    ends = omega (arith, h.ends, length-append v w);
    bounded = h.bounded;
    split =
        sym (drop-drop p (length v) (p + length v) input.bytes refl)
        ∙ ap (drop (length v)) (h.split ∙ append_assoc v w (rest input q))
        ∙ drop-append v (w ++ rest input q);
  }

  pub Between-first :
      {p q : ℕ} (v w : Bytes) → Between input p (v ++ w) q → Between input p v (p + length v)
  Between-first {p} {q} v w h = record {
    ends = refl;
    bounded = omega (arith, h.ends, h.bounded, length-append v w);
    split = rw ((Between-rest v w h).split) (h.split ∙ append_assoc v w (rest input q));
  }

  pub peek_here :
      {p q : ℕ} {b : ℕ} {w : Bytes}
      → Between input p (b ∷ w) q
      → peek_current_byte input p ≡ (ok b, p)
  unfolding peek_current_byte
  peek_here {p} {q} {b} {w} h = rw (
    lt→ltb p input.length (omega (arith, h.ends, h.bounded)),
    get_elem?-drop input.bytes p b (w ++ rest input q) h.split,
  )

  pub consume_here :
      {p q : ℕ} {b : ℕ} {w : Bytes}
      → Between input p (b ∷ w) q
      → consume_current_byte input p ≡ (ok b, p + 1)
  unfolding consume_current_byte
  consume_here {p} {q} {b} {w} h = rw (
    lt→ltb p input.length (omega (arith, h.ends, h.bounded)),
    get_elem?-drop input.bytes p b (w ++ rest input q) h.split,
  )

  pub Between-tail : {p q b : ℕ} {w : Bytes} → Between input p (b ∷ w) q → Between input (p + 1) w q
  Between-tail {p} {q} {b} {w} h = Between-rest (b ∷ []) w h

  pub bytes_exist_here :
      {p q : ℕ} {s : Bytes}
      → Between input p s q
      → bytes_exist_from_current_parser_position input p (length s) ≡ true
  unfolding bytes_exist_from_current_parser_position
  bytes_exist_here {p} {q} {s} h = ground arith

  pub read_here :
      {p q : ℕ} {s : Bytes}
      → Between input p s q
      → read_bencode_string input (length s) p ≡ (ok s, q)
  unfolding read_bencode_string
  read_here {p} {q} {s} h = rw (h.split, take-append s (rest input q), h.ends)
