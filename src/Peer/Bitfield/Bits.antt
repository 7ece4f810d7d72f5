-- ===== src/Peer/Bitfield/Bits.antt =====
-- Facts about the bits of a byte, by evaluation over all bytes and positions.
use Prim.Native.Nat.{bit_and, bit_or}
use loco.Base.{
  ℕ, zero, suc, ◌-◌, ◌^◌, ◌<◌, ◌≤◌, ◌≡◌, refl, Bool, true, false, not, ◌&&◌, ◌||◌, arith, ltb, ◌==◌,
}
use loco.Peer.Bitfield.{mask}

abbrev bool_eq : Bool → Bool → Bool
bool_eq true b = b
bool_eq false b = not b

bool_eq→eq : (a b : Bool) → bool_eq a b ≡ true → a ≡ b
bool_eq→eq true true h = refl
bool_eq→eq true false h = cc
bool_eq→eq false true h = cc
bool_eq→eq false false h = refl

all_below : ℕ → (ℕ → Bool) → Bool
all_below zero p = true
all_below (suc n) p = p n && all_below n p

all_below→ : (n : ℕ) (p : ℕ → Bool) (x : ℕ) → all_below n p ≡ true → x < n → p x ≡ true
unfolding all_below
all_below→ zero p x h lt = absurd (omega arith)
all_below→ (suc n) p x h lt = ground (arith, all_below→ n p x)

abbrev bit : ℕ → ℕ → Bool
bit b j = not (bit_and b (mask j) == 0)

set_table :
    all_below 256 (λ b.
      all_below 8 (λ i. all_below 8 (λ j. bool_eq (bit (bit_or b (mask i)) j) (i == j || bit b j))))
    ≡ true
unfolding all_below
set_table = refl

-- Setting a bit of a byte sets that bit and no other.
pub bit_and-bit_or :
    (b i j : ℕ)
    → b < 256
    → i < 8
    → j < 8
    → not (bit_and (bit_or b (mask i)) (mask j) == 0) ≡ (i == j || not (bit_and b (mask j) == 0))
bit_and-bit_or b i j hb hi hj =
    bool_eq→eq _ _ (all_below→ 8 _ j (all_below→ 8 _ i (all_below→ 256 _ b set_table hb) hi) hj)

byte_table : all_below 256 (λ b. all_below 8 (λ i. ltb (bit_or b (mask i)) 256)) ≡ true
unfolding all_below
byte_table = refl

pub bit_or-lt : (b i : ℕ) → b < 256 → i < 8 → bit_or b (mask i) < 256
bit_or-lt b i hb hi =
    let h =
      all_below→ 8 (λ k. ltb (bit_or b (mask k)) 256) i (all_below→ 256 _ b byte_table hb) hi in
    ground arith

padding_table :
    all_below 256 (λ b.
      all_below 8 (λ r.
        all_below 8 (λ j. not (bit_and (2 ^ (8 - r) - 1) b == 0) || ltb j r || not (bit b j))))
    ≡ true
unfolding all_below
padding_table = refl

-- Where the lowest 8 - r bits of a byte are 0, no position from r on is set.
pub bit_and-padding :
    (b r j : ℕ)
    → b < 256
    → r < 8
    → j < 8
    → r ≤ j
    → (bit_and (2 ^ (8 - r) - 1) b == 0) ≡ true
    → not (bit_and b (mask j) == 0) ≡ false
bit_and-padding b r j hb hr hj le clear =
    let h =
      all_below→ 8 (λ k. not (bit_and (2 ^ (8 - r) - 1) b == 0) || ltb k r || not (bit b k)) j
        (all_below→ 8 _ r (all_below→ 256 _ b padding_table hb) hr) hj in
    ground arith

zero_table : all_below 8 (λ j. not (bit 0 j)) ≡ true
unfolding all_below
zero_table = refl

pub bit_and-zero : (j : ℕ) → j < 8 → not (bit_and 0 (mask j) == 0) ≡ false
bit_and-zero j hj = let h = all_below→ 8 (λ k. not (bit 0 k)) j zero_table hj in ground arith
