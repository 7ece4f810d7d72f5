-- ===== src/Bencode/Complete/Arrays.antt =====
-- An array never fails to grow where memory is granted and the document is below 2^56 bytes.

use loco.Base.{ℕ, zero, suc, ◌*◌, ◌/◌, ◌≤◌, ◌≡◌, true, some, arith, size_max}
use loco.Bencode.Arrays.{Allocator, new_capacity, reserve}
use loco.Bencode.Grammar.{capacity_for}

abbrev pub document_max : ℕ
document_max = 72057594037927936

pub capacity_for-le : (n : ℕ) → (n ≤ capacity_for n) × (capacity_for n ≤ 2 * n)
unfolding capacity_for
capacity_for-le zero = omega arith
capacity_for-le (suc n) = ground (arith, capacity_for-le n)

-- Memory is granted whenever it is asked for.
abbrev pub Grants : Allocator → Type 0
Grants realloc = (p n : ℕ) → realloc p n ≡ true

pub reserve-capacity_for_self :
    (realloc : Allocator) (size p n : ℕ)
    → Grants realloc
    → 2 * document_max ≤ size_max / size
    → n ≤ document_max
    → reserve realloc size p n (capacity_for n) ≡ some (capacity_for (suc n))
unfolding reserve capacity_for
reserve-capacity_for_self realloc size p n all h k = ground (
  arith,
  capacity_for-le n,
  all p (new_capacity (capacity_for n) * size),
  all p (1 * size),
  all p (capacity_for n * 2 * size),
)
