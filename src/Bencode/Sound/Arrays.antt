-- ===== src/Bencode/Sound/Arrays.antt =====
-- Room in the growing arrays: an element is written inside the block.
use loco.Base.{
  Bool-cases, inl, inr, true, size_max, ◌⊎◌, leb, ◌==◌, ◌*◌, ◌/◌, sym, subst, ℕ, ◌+◌, ◌≤◌, ◌<◌, ◌≡◌,
  some, arith,
}
use native.Mathlib.Numerals.{add-one}
use loco.Bencode.Grammar.{capacity_for}
use loco.Bencode.Arrays.{Allocator, object_size, entry_size, reserve}

-- The index `count`, where it was at most the capacity, is inside the block that `reserve` leaves.
pub reserve-lt :
    (realloc : Allocator) (size p count capacity c : ℕ)
    → reserve realloc size p count capacity ≡ some c
    → count ≤ capacity
    → count < c
unfolding reserve
reserve-lt realloc size p count capacity c e h = ground arith

-- The bytes of the block behind `reserve`: those that it had before, or those that realloc gave.
pub data Block (realloc : Allocator) (p bytes : ℕ) : ℕ → Type 0 where
  kept : Block realloc p bytes bytes
  given : {asked : ℕ} → realloc p asked ≡ true → Block realloc p bytes asked

-- The size of an element of one of the parser's two arrays.
abbrev IsElementSize : ℕ → Type 0
IsElementSize size = (size ≡ object_size) ⊎ (size ≡ entry_size)

object_sized : (c : ℕ) → leb c (size_max / object_size) ≡ true → c * object_size ≤ size_max
object_sized c h = ground (arith, h)

entry_sized : (c : ℕ) → leb c (size_max / entry_size) ≡ true → c * entry_size ≤ size_max
entry_sized c h = ground (arith, h)

sized : (size c : ℕ) → IsElementSize size → leb c (size_max / size) ≡ true → c * size ≤ size_max
sized size c (inl e) =
    subst (λ k. leb c (size_max / k) ≡ true → c * k ≤ size_max) (sym e) (object_sized c)
sized size c (inr e) =
    subst (λ k. leb c (size_max / k) ≡ true → c * k ≤ size_max) (sym e) (entry_sized c)

element_inside : (size n c : ℕ) → IsElementSize size → n < c → (n + 1) * size ≤ c * size
element_inside size n c (inl e) h = subst (λ k. (n + 1) * k ≤ c * k) (sym e) (omega (arith, h))
element_inside size n c (inr e) h = subst (λ k. (n + 1) * k ≤ c * k) (sym e) (omega (arith, h))

-- Behind a `reserve` that makes room, the block, which is the old one or the one that realloc gave at this
-- call, has the bytes of its whole capacity and those of the element at the index `count`, and their number
-- is a size_t. The old block had the bytes of its capacity, within size_t, the index is at most the
-- capacity, and the elements are those of a list or of a dictionary.
pub reserve-Block :
    (realloc : Allocator) (size p count capacity bytes c : ℕ)
    → IsElementSize size
    → capacity * size ≤ bytes
    → bytes ≤ size_max
    → count ≤ capacity
    → reserve realloc size p count capacity ≡ some c
    → (bytes' : ℕ) × Block realloc p bytes bytes'
      × (c * size ≤ bytes')
      × ((count + 1) * size ≤ bytes')
      × (bytes' ≤ size_max)
unfolding reserve
reserve-Block realloc size p count capacity bytes c known holds small h e =
    let inside =
      element_inside size count c known (reserve-lt realloc size p count capacity c e h) in
    elim (Bool-cases (count == capacity)) [
      | inr room ↦
          let same : capacity ≡ c = ground arith in
          let whole : c * size ≤ bytes = subst (λ n. n * size ≤ bytes) same holds in
          (bytes, kept, whole, omega (arith, inside, whole), small)
      | inl full ↦
          let fits : leb c (size_max / size) ≡ true = ground arith in
          let asked : realloc p (c * size) ≡ true = ground arith in
          (c * size, given asked, omega arith, inside, sized size c known fits)
    ]

-- The capacities that `reserve` leaves are those of an array grown one element at a time.
pub reserve-capacity_for :
    (realloc : Allocator) (size p count capacity c : ℕ)
    → reserve realloc size p count capacity ≡ some c
    → capacity ≡ capacity_for count
    → c ≡ capacity_for (count + 1)
unfolding reserve capacity_for
reserve-capacity_for realloc size p count capacity c e h = rw add-one (ground arith)
