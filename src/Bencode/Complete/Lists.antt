-- ===== src/Bencode/Complete/Lists.antt =====
-- Every encoded list is accepted, over any parser that accepts the objects in it.

use loco.Base.{
  ℕ, zero, suc, ◌+◌, ◌-◌, ◌≤◌, ◌<◌, ◌≡◌, false, refl, sym, ap, subst, ◌∙◌, [], ◌∷◌, ◌++◌,
  append_assoc, Bytes, arith, length, length-append, ◌==◌,
}
use loco.Bencode.Types.{Object, Objects, no_items, item, append_item, count_items}
use loco.Bencode.Action.{ok, Action}
use loco.Bencode.Cursor.{Input}
use loco.Bencode.Arrays.{Allocator, object_size}
use loco.Bencode.Containers.{BencodeList, empty_list, store_item, list_loop, parse_bencode_list}
use loco.Bencode.Grammar.{
  capacity_for, Encodes, EncodesItems, encodes, encodes_no_items, encodes_item,
}
use loco.Bencode.Sound.Cursor.{Between}
use loco.Bencode.Complete.Cursor.{
  consume_here, peek_here, Between-tail, Between-first, Between-rest,
}
use loco.Bencode.Complete.Arrays.{document_max, Grants, reserve-capacity_for_self}
use loco.Bencode.Complete.Heads.{EncodesValue-Head}

abbrev append_items : Objects → Objects → Objects
append_items no_items ys = ys
append_items (item x xs) ys = item x (append_items xs ys)

append_items-nil : (xs : Objects) → append_items xs no_items ≡ xs
append_items-nil no_items = refl
append_items-nil (item x xs) = ap (item x) (append_items-nil xs)

append_items-append_item :
    (xs : Objects) (x : Object) (ys : Objects)
    → append_items (append_item xs x) ys ≡ append_items xs (item x ys)
append_items-append_item no_items x ys = refl
append_items-append_item (item z xs) x ys = ap (item z) (append_items-append_item xs x ys)

-- A list with more elements added, each at the end.
abbrev extend_list : BencodeList → Objects → BencodeList
extend_list l xs = record {
  items = append_items l.items xs;
  count = l.count + count_items xs;
  capacity = capacity_for (l.count + count_items xs);
}

extend_list-nil : (l : BencodeList) → l.capacity ≡ capacity_for l.count → extend_list l no_items ≡ l
extend_list-nil l h =
    let same : l.count + 0 ≡ l.count = omega arith in rw (append_items-nil l.items, same, ← h)

abbrev grown_list : BencodeList → Object → BencodeList
grown_list l x = record {
  items = append_item l.items x;
  count = l.count + 1;
  capacity = capacity_for (suc l.count);
}

extend_list-item :
    (l : BencodeList) (x : Object) (xs : Objects)
    → extend_list (grown_list l x) xs ≡ extend_list l (item x xs)
extend_list-item l x xs =
    let same : l.count + 1 + count_items xs ≡ l.count + suc (count_items xs) = omega arith in
    rw (append_items-append_item l.items x xs, same)

-- The first byte of a stretch that is not empty.
pub first_byte : (w : Bytes) (c : ℕ) → (b : ℕ) × (u : Bytes) × (w ++ c ∷ [] ≡ b ∷ u)
first_byte [] c = (c, [], refl)
first_byte (b ∷ w) c = (b, w ++ c ∷ [], refl)

-- A parser that accepts every encoded object behind `start`.
abbrev pub Accepts : Input → ℕ → Action Object → Type 0
Accepts input start parse =
    (p q : ℕ) (x : Object) (w : Bytes)
    → start < p
    → Encodes x p w
    → Between input p w q
    → parse p ≡ (ok x, q)

Encodes-Head :
    {x : Object} {p : ℕ} {w : Bytes}
    → Encodes x p w
    → (b : ℕ) × (u : Bytes) × (w ≡ b ∷ u) × ((b == b'e') ≡ false)
Encodes-Head (encodes g s n) = let h = EncodesValue-Head g in (h.byte, h.others, h.shape, h.not_end)

module _ (realloc : Allocator) (input : Input) (all : Grants realloc) (start : ℕ)
    (parse : Action Object) (accepts : Accepts input start parse) where
  store_item_lem :
      (l : BencodeList) (x : Object) (p : ℕ)
      → l.capacity ≡ capacity_for l.count
      → l.count ≤ document_max
      → store_item realloc input start l x p ≡ (ok (grown_list l x), p)
  unfolding store_item
  store_item_lem l x p h k =
      rw
        (h, reserve-capacity_for_self realloc object_size p l.count all (omega arith) k, store_item)

  list_loop-Between :
      (f : ℕ) (l : BencodeList) (b p q : ℕ) (xs : Objects) (w u : Bytes)
      → input.length - p < f
      → start < p
      → EncodesItems xs p w
      → w ++ b'e' ∷ [] ≡ b ∷ u
      → Between input p (w ++ b'e' ∷ []) q
      → l.capacity ≡ capacity_for l.count
      → l.count + length w ≤ document_max
      → list_loop realloc input parse f start l b p ≡ (ok (extend_list l xs), q)
  unfolding list_loop
  list_loop-Between zero l b p q xs w u h k g e at c m =
      absurd (omega (arith, at.ends, at.bounded, length-append w (b'e' ∷ [])))
  list_loop-Between (suc f) l b p q no_items w u h k (encodes_no_items z) e at c m =
      rw (last, consume_here input closing, extend_list-nil l c)
        (ap (λ n. (ok l, n)) (sym closing.ends))
    where
      last : b ≡ b'e'
      last = let e' : b'e' ∷ [] ≡ b ∷ u = rw z at e in cc

      closing : Between input p (b'e' ∷ []) q
      closing = subst (λ t. Between input p (t ++ b'e' ∷ []) q) z at
  list_loop-Between (suc f) l b p q (item x xs) w u h k (encodes_item v t g gs z) e at c m =
      rw
        (
          first,
          others,
          accepts p (p + length v) x v k g (Between-first input v (t ++ b'e' ∷ []) here),
          store_item_lem l x (p + length v) c (omega arith),
          peek_here input (subst (λ s. Between input (p + length v) s q) next.2 there),
        )
        (list_loop-Between f (grown_list l x) next.0 (p + length v) q xs t next.1
            (omega (arith, there.ends, there.bounded, some_byte)) (omega arith) gs next.2 there
            (ap capacity_for (omega arith))
            (omega (arith, ap length z, length-append v t, some_byte))
          ∙ ap (λ l'. (ok l', q)) (extend_list-item l x xs))
    where
      here : Between input p (v ++ (t ++ b'e' ∷ [])) q
      here =
          subst (λ s. Between input p s q)
            (ap (λ s. s ++ b'e' ∷ []) z ∙ append_assoc v t (b'e' ∷ [])) at

      there : Between input (p + length v) (t ++ b'e' ∷ []) q
      there = Between-rest input v (t ++ b'e' ∷ []) here

      next : (b' : ℕ) × (u' : Bytes) × (t ++ b'e' ∷ [] ≡ b' ∷ u')
      next = first_byte t b'e'

      head : (b' : ℕ) × (u' : Bytes) × (v ≡ b' ∷ u') × ((b' == b'e') ≡ false)
      head = Encodes-Head g

      first : b ≡ head.0
      first = let e' : head.0 ∷ ((head.1 ++ t) ++ b'e' ∷ []) ≡ b ∷ u = rw (z, head.2) at e in cc

      others : (head.0 == b'e') ≡ false
      others = head.3

      some_byte : 0 < length v
      some_byte = omega (arith, ap length head.2)

  pub parse_bencode_list-Between :
      (q : ℕ) (xs : Objects) (inner : Bytes)
      → input.length ≤ document_max
      → EncodesItems xs (suc start) inner
      → Between input start (b'l' ∷ (inner ++ b'e' ∷ [])) q
      → parse_bencode_list realloc input parse start ≡ (
        ok (record {
          items = xs;
          count = count_items xs;
          capacity = capacity_for (count_items xs);
        }),
        q,
      )
  unfolding parse_bencode_list
  parse_bencode_list-Between q xs inner small g at =
      rw
        (
          consume_here input at,
          peek_here input (subst (λ s. Between input (start + 1) s q) next.2 inside),
        )
        (list_loop-Between (suc input.length) empty_list next.0 (start + 1) q xs inner next.1
            (omega arith) (omega arith) (subst (λ n. EncodesItems xs n inner) (omega arith) g)
            next.2 inside (unfold capacity_for in refl)
            (omega (arith, inside.ends, inside.bounded, length-append inner (b'e' ∷ [])))
          ∙ ap (λ n. (ok (record { items = xs; count = n; capacity = capacity_for n }), q))
              (omega arith))
    where
      inside : Between input (start + 1) (inner ++ b'e' ∷ []) q
      inside = Between-tail input at

      next : (b' : ℕ) × (u' : Bytes) × (inner ++ b'e' ∷ [] ≡ b' ∷ u')
      next = first_byte inner b'e'
