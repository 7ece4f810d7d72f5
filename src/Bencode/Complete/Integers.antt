-- ===== src/Bencode/Complete/Integers.antt =====
-- Every encoded integer is accepted.
use mathlib.Core.List.{tail}
use loco.Base.{
  ℕ, zero, suc, ◌+◌, ◌-◌, ◌*◌, ◌≤◌, ◌<◌, ◌≡◌, ◌≢◌, refl, ap, subst, Bool, true, false, ◌&&◌, [],
  ◌∷◌, ◌++◌, ℤ, pos, negsuc, Bytes, arith, int64_max, length, length-append, ◌==◌,
}
use loco.Bencode.Action.{ok}
use loco.Bencode.Cursor.{Input}
use loco.Bencode.Strings.{is_digit}
use loco.Bencode.Integers.{integer_value, would_overflow, magnitude_loop, parse_bencode_integer}
use loco.Bencode.Grammar.{
  IsDigit, AllDigits, decimal, IsCanonical, IsInt64, magnitude, written_integer, EncodesInteger,
}
use loco.Bencode.Sound.Cursor.{Between}
use loco.Bencode.Sound.Integers.{limit, decimal-le}
use loco.Bencode.Complete.Cursor.{consume_here, Between-tail}
use loco.Bencode.Complete.Strings.{IsDigit→is_digit}

limit-would_overflow :
    (negative : Bool) (n d : ℕ)
    → n * 10 + d ≤ limit negative
    → d ≤ 9
    → would_overflow negative n d ≡ false
unfolding would_overflow
limit-would_overflow true n d h k = ground arith
limit-would_overflow false n d h k = ground arith

-- Where canonical digits leave the magnitude 0, the byte behind is the closing one.
lead-test :
    (n d c : ℕ) (ds u : Bytes)
    → IsDigit d
    → (n ≡ 0 → IsCanonical (d ∷ ds))
    → c ∷ u ≡ ds ++ b'e' ∷ []
    → ((n * 10 + (d - b'0')) == 0 && is_digit c) ≡ false
lead-test n d c [] u h k e = let last : c ≡ b'e' = cc in rw last (ground arith)
lead-test n d c (x ∷ ds) u h k e = ground arith

module _ (input : Input) where
  magnitude_loop-Between :
      (f start : ℕ) (negative : Bool) (n b p q : ℕ) (ds u : Bytes)
      → input.length - p < f
      → AllDigits ds
      → decimal n ds ≤ limit negative
      → (n ≡ 0 → ds ≢ [] → IsCanonical ds)
      → b ∷ u ≡ ds ++ b'e' ∷ []
      → Between input p u q
      → magnitude_loop input f start negative n b p ≡ (ok (decimal n ds, b'e'), q)
  unfolding magnitude_loop
  magnitude_loop-Between zero start negative n b p q ds u h all small lead e at =
      absurd (omega arith)
  magnitude_loop-Between (suc f) start negative n b p q [] u h all small lead e at =
      let last : b ≡ b'e' = cc in
      let empty : u ≡ [] = cc in
      let same : q ≡ p = omega (arith, at.ends, ap length empty) in rw (last, same)
  magnitude_loop-Between (suc f) start negative n b p q (d ∷ ds) [] h all small lead e at =
      absurd (omega (arith, ap length e, length-append ds (b'e' ∷ [])))
  magnitude_loop-Between (suc f) start negative n b p q (d ∷ ds) (c ∷ u) h all small lead e at =
      let same : b ≡ d = cc in
      let others : c ∷ u ≡ ds ++ b'e' ∷ [] = ap tail e in
      let fits : would_overflow negative n (d - b'0') ≡ false =
        limit-would_overflow negative n (d - b'0')
          (omega (arith, decimal-le (n * 10 + (d - b'0')) ds)) (omega (arith, all.0)) in
      rw
        (
          same,
          IsDigit→is_digit d all.0,
          fits,
          consume_here input at,
          lead-test n d c ds u all.0 (λ z. lead z (λ x. cc)) others,
        )
        (magnitude_loop-Between f start negative (n * 10 + (d - b'0')) c (p + 1) q ds u
          (omega (arith, at.ends, at.bounded)) all.1 small
          (lead_on ds all.0 (λ z. lead z (λ x. cc))) others (Between-tail input at))
    where
      lead_on :
          (t : Bytes)
          → IsDigit d
          → (n ≡ 0 → IsCanonical (d ∷ t))
          → n * 10 + (d - b'0') ≡ 0
          → t ≢ []
          → IsCanonical t
      lead_on [] k l z ne = absurd (ne refl)
      lead_on (x ∷ t) k l z ne = absurd (l (omega arith) (omega arith))

  -- The bytes behind `i` and the sign.
  digits-Between :
      (start : ℕ) (negative : Bool) (d p q : ℕ) (ds : Bytes)
      → IsCanonical (d ∷ ds)
      → AllDigits (d ∷ ds)
      → decimal 0 (d ∷ ds) ≤ limit negative
      → Between input p (ds ++ b'e' ∷ []) q
      → magnitude_loop input (suc input.length) start negative 0 d p
        ≡ (ok (decimal 0 (d ∷ ds), b'e'), q)
  digits-Between start negative d p q ds lead all small at =
      magnitude_loop-Between (suc input.length) start negative 0 d p q (d ∷ ds) (ds ++ b'e' ∷ [])
        (omega arith) all small (λ _ _. lead) refl at

  positive-Between :
      (n p q d : ℕ) (ds : Bytes)
      → IsCanonical (d ∷ ds)
      → AllDigits (d ∷ ds)
      → decimal 0 (d ∷ ds) ≡ n
      → n ≤ int64_max
      → Between input p (b'i' ∷ d ∷ (ds ++ b'e' ∷ [])) q
      → parse_bencode_integer input p ≡ (ok (pos n), q)
  unfolding parse_bencode_integer
  positive-Between n p q d ds lead all value small at =
      rw
        (
          consume_here input at,
          consume_here input (Between-tail input at),
          no_sign,
          no_end,
          digits-Between p false d (p + 1 + 1) q ds lead all (omega (arith, value))
              (Between-tail input (Between-tail input at)),
        )
        (rw value refl)
    where
      no_sign : (d == b'-') ≡ false
      no_sign = ground arith

      no_end : (d == b'e') ≡ false
      no_end = ground arith

  negative-Between :
      (n p q d : ℕ) (ds : Bytes)
      → IsCanonical (d ∷ ds)
      → AllDigits (d ∷ ds)
      → decimal 0 (d ∷ ds) ≡ suc n
      → n ≤ int64_max
      → Between input p (b'i' ∷ b'-' ∷ d ∷ (ds ++ b'e' ∷ [])) q
      → parse_bencode_integer input p ≡ (ok (negsuc n), q)
  unfolding parse_bencode_integer
  negative-Between n p q d ds lead all value small at =
      rw
        (
          consume_here input at,
          consume_here input (Between-tail input at),
          consume_here input (Between-tail input (Between-tail input at)),
          no_end,
          no_zero ds lead value,
          digits-Between p true d (p + 1 + 1 + 1) q ds lead all (omega (arith, value))
              (Between-tail input (Between-tail input (Between-tail input at))),
          value,
        )
        (ap (λ i. (ok i, q)) (minus n small))
    where
      no_end : (d == b'e') ≡ false
      no_end = ground arith

      no_zero : (t : Bytes) → IsCanonical (d ∷ t) → decimal 0 (d ∷ t) ≡ suc n → (d == b'0') ≡ false
      no_zero [] k v = ground arith
      no_zero (x ∷ t) k v = ground arith

      minus : (n : ℕ) → n ≤ int64_max → integer_value true (suc n) ≡ negsuc n
      minus n h = ground arith

  pub parse_bencode_integer-Between :
      (p q : ℕ) (i : ℤ) (w : Bytes)
      → EncodesInteger i w
      → Between input p w q
      → parse_bencode_integer input p ≡ (ok i, q)
  parse_bencode_integer-Between p q i w g at =
      by_sign i g.digits g.canonical g.all_digits g.denoted g.in_range
        (subst (λ t. Between input p t q) g.written at)
    where
      by_sign :
          (i : ℤ) (ds : Bytes)
          → IsCanonical ds
          → AllDigits ds
          → decimal 0 ds ≡ magnitude i
          → IsInt64 i
          → Between input p (written_integer i ds) q
          → parse_bencode_integer input p ≡ (ok i, q)
      by_sign i [] lead all value small at = absurd lead
      by_sign (pos n) (d ∷ ds) lead all value small at =
          positive-Between n p q d ds lead all value small at
      by_sign (negsuc n) (d ∷ ds) lead all value small at =
          negative-Between n p q d ds lead all value small at
