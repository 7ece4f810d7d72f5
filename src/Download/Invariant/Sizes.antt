-- ===== src/Download/Invariant/Sizes.antt =====
-- src/main.c: the sizes of the pieces, and how they are computed.
use native.Mathlib.Nat.{le-div_iff_mul-le}
use loco.Base.{
  take_all, ℕ, zero, suc, ◌+◌, ◌-◌, ◌*◌, ◌/◌, ◌≤◌, ◌<◌, ◌≡◌, refl, sym, ap, ◌∙◌, ◌⊎◌, inl, inr,
  Bool, true, false, not, ◌&&◌, Bool-cases, some, Bytes, arith, size_max, length, take, length-take,
  ltb, ◌==◌, if◌then◌else◌,
}
use loco.Download.State.{Torrent, piece_count}
use loco.Download.Round.{next_piece_size}
use loco.Download.Invariant.{IsConsistent, size_of}

fits_division :
    (n m total : ℕ)
    → n * m ≤ total
    → total ≤ size_max
    → (not (m == 0) && ltb (size_max / m) n) ≡ false
fits_division n zero total h k = refl
fits_division n (suc m) total h k =
    let small : n ≤ size_max / suc m =
      (le-div_iff_mul-le {k = suc m} {x = n} {y = size_max} (omega arith)).1 (omega arith) in
    ground (arith, small)

if-some : (b : Bool) (x y : ℕ) → (if b then some x else some y) ≡ some (if b then x else y)
if-some true x y = refl
if-some false x y = refl

pub below_or_last : (j k : ℕ) → j < k + 1 → (j < k) ⊎ (j ≡ k)
below_or_last j k h = elim (Bool-cases (ltb j k)) [
  | inl e ↦ inl (ground (arith, e))
  | inr e ↦ inr (ground (arith, e, h))
]

pub piece_below : (l i : ℕ) → 0 < l / 20 → ltb (l - 20) (i * 20) ≡ false → i < l / 20
piece_below l i h e = ground (arith, h, e)

pub length-take_small : (n : ℕ) (b : Bytes) → n ≤ length b → length (take n b) ≡ n
length-take_small n b h = ground (arith, length-take n b, h)

pub take_whole : (m n : ℕ) (b : Bytes) → m ≡ n → n ≤ length b → take m (take n b) ≡ take n b
take_whole m n b e h =
    ap (λ k. take k (take n b)) (e ∙ sym (length-take_small n b h))
    ∙ take_all (length (take n b)) (take n b) (omega arith)

-- The size computed for the next piece, from that of a piece before the last, is the size of the next
-- piece, for a torrent whose length fits its pieces.
pub next_piece_size_lem :
    (t : Torrent) (i : ℕ)
    → IsConsistent t
    → i + 1 < piece_count t
    → next_piece_size t (i + 1) (size_of t i) ≡ some (size_of t (i + 1))
unfolding next_piece_size
next_piece_size_lem t i fits h =
    let overflow =
      fits_division t.normal_piece_size (piece_count t - 1) t.total_file_size fits.reached
        fits.sized in
    let under : ltb t.total_file_size (t.normal_piece_size * (piece_count t - 1)) ≡ false =
      ground (arith, fits.reached) in
    let earlier : (i == piece_count t - 1) ≡ false = ground (arith, h) in
    rw (overflow, under, earlier) (if-some (i + 1 == piece_count t - 1) _ _)

pub size_of-≤ : (t : Torrent) (i : ℕ) → IsConsistent t → size_of t i ≤ t.normal_piece_size
size_of-≤ t i fits = ground (arith, fits.covered)
