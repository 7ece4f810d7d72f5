-- ===== src/Tracker/Url/Decimal.antt =====
-- src/tracker.c: the numbers of a request in its URL, printed by `snprintf` in base ten.
use loco.Base.{
  ℕ, zero, suc, ◌+◌, ◌*◌, ◌/◌, ◌%◌, ◌≤◌, ◌<◌, ◌≡◌, inl, inr, true, Bool-cases, some, [], ◌∷◌, Bytes,
  arith, length, ltb,
}
use loco.Tracker.Url.{digits, print_unsigned}

abbrev power_of_ten : ℕ → ℕ
power_of_ten zero = 1
power_of_ten (suc k) = 10 * power_of_ten k

length-digits :
    (f k n : ℕ) (text : Bytes)
    → n < power_of_ten k
    → 1 ≤ k
    → length (digits f n text) ≤ k + length text
unfolding digits
length-digits zero k n text h positive = omega (arith, positive)
length-digits (suc f) zero n text h positive = absurd (omega (arith, positive))
length-digits (suc f) (suc zero) n text h positive = rw single (omega arith)
  where
    single : ltb n 10 ≡ true
    single = ground (arith, h)
length-digits (suc f) (suc (suc k)) n text h positive = elim (Bool-cases (ltb n 10)) [
  | inl small ↦ rw small (omega arith)
  | inr large ↦ rw large (
      omega (
        arith,
        length-digits f (suc k) (n / 10) ((b'0' + n % 10) ∷ text) (omega (arith, h)) (omega arith),
      ))
]

-- The text and its closing 0 fit in the buffer.
pub print_unsigned-fits :
    (k n : ℕ) → n < power_of_ten k → 1 ≤ k → print_unsigned (k + 1) n ≡ some (digits 20 n [])
unfolding print_unsigned
print_unsigned-fits k n h positive = ground (arith, length-digits 20 k n [] h positive)
