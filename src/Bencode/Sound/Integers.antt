-- ===== src/Bencode/Sound/Integers.antt =====
-- `parse_bencode_integer`: what it accepts, and what it returns.
use loco.Base.{
  ℕ, zero, suc, ◌+◌, ◌-◌, ◌*◌, ◌≤◌, ◌<◌, ◌≡◌, refl, sym, ap, ◌∙◌, ◌≢◌, Bool, true, false, not, ◌&&◌,
  [], ◌∷◌, ◌++◌, append_assoc, Bytes, arith, int64_max, length, length-append, ◌==◌, ==_iff,
}
use loco.Bencode.Cursor.{Input}
use loco.Bencode.Strings.{is_digit}
use loco.Bencode.Integers.{
  integer_value, would_overflow, read_sign, magnitude_loop, parse_bencode_integer,
}
use loco.Bencode.Ensures.{
  Ensures, holds, rejected, Ensures-continue, Ensures-restore, Ensures-require, Ensures-mono,
  Ensures-if, Ensures-choice,
}
use loco.Bencode.Grammar.{
  IsDigit, AllDigits, decimal, IsCanonical, IsInt64, magnitude, written_integer, EncodesInteger,
}
use loco.Bencode.Sound.Cursor.{rest, ByteAt, Between, consume_current_byte-Ensures}
use loco.Bencode.Sound.Strings.{is_digit→IsDigit}

abbrev pub limit : Bool → ℕ
limit true = int64_max + 1
limit false = int64_max

-- The overflow checks let the next digit be added within the range.
would_overflow-limit :
    (negative : Bool) (m d : ℕ)
    → would_overflow negative m d ≡ false
    → d ≤ 9
    → m * 10 + d ≤ limit negative
unfolding would_overflow
would_overflow-limit true m d h k = ground arith
would_overflow-limit false m d h k = ground arith

pub decimal-le : (n : ℕ) (ds : Bytes) → n ≤ decimal n ds
decimal-le n [] = omega arith
decimal-le n (d ∷ ds) = omega (arith, decimal-le (n * 10 + (d - b'0')) ds)

abbrev sign : Bool → Bytes
sign true = b'-' ∷ []
sign false = []

integer_value_lem :
    (negative : Bool) (m : ℕ) (ds : Bytes)
    → (negative ≡ true → 0 < m)
    → m ≤ limit negative
    → (magnitude (integer_value negative m) ≡ m)
      × IsInt64 (integer_value negative m)
      × (written_integer (integer_value negative m) ds
          ≡ b'i' ∷ (sign negative ++ (ds ++ b'e' ∷ [])))
unfolding integer_value
integer_value_lem false m ds p h = (refl, h, refl)
integer_value_lem true zero ds p h = absurd (omega (arith, p refl))
integer_value_lem true (suc m) ds p h = ground arith

-- Once a digit is read that leaves the magnitude 0, no digit may follow.
IsCanonical-step :
    (n b c last : ℕ) (ds t u : Bytes)
    → IsDigit b
    → n ≡ 0
    → ((n * 10 + (b - b'0')) == 0 && is_digit c) ≡ false
    → is_digit last ≡ false
    → AllDigits ds
    → c ∷ t ≡ ds ++ last ∷ u
    → IsCanonical (b ∷ ds)
IsCanonical-step n b c last [] t u h z k l all e = tt
IsCanonical-step n b c last (d ∷ ds) t u h z k l all e = λ zero_first. ground arith

module _ (input : Input) where
  record MagnitudeRead (negative : Bool) (n b p : ℕ) (found : ℕ × ℕ) (q : ℕ) : Type 0 where
    digits : Bytes
    all_digits : AllDigits digits
    canonical : n ≡ 0 → digits ≢ [] → IsCanonical digits
    denoted : found.0 ≡ decimal n digits
    fits : n ≤ limit negative → found.0 ≤ limit negative
    ends : q ≡ p + length digits
    bounded : q ≤ input.length
    stops : is_digit found.1 ≡ false
    split : b ∷ rest input p ≡ digits ++ found.1 ∷ rest input q

  magnitude_loop-Ensures :
      (f start : ℕ) (negative : Bool) (n b p : ℕ)
      → input.length - p < f
      → p ≤ input.length
      → Ensures start (MagnitudeRead negative n b p) (magnitude_loop input f start negative n b p)
  unfolding magnitude_loop
  magnitude_loop-Ensures zero start negative n b p h k = absurd (omega arith)
  magnitude_loop-Ensures (suc f) start negative n b p h k =
      Ensures-if (is_digit b)
        (λ digit.
          Ensures-if (would_overflow negative n (b - b'0')) (λ _. rejected refl)
            (λ small.
              Ensures-continue (Ensures-restore (consume_current_byte-Ensures input p))
                (λ c q (e, at).
                  let at' : ByteAt input p c = at in
                  Ensures-choice ((n * 10 + (b - b'0')) == 0 && is_digit c) _ _ (λ _. rejected refl)
                    (λ lead.
                      Ensures-mono
                        (magnitude_loop-Ensures f start negative (n * 10 + (b - b'0')) c q
                          (omega (arith, at'.inside)) (omega (arith, at'.inside)))
                        (λ found r l. next c q digit small lead e at' found r l)))))
        (λ other. holds (record {
          digits = [];
          all_digits = tt;
          canonical = λ _ ne. absurd (ne refl);
          denoted = refl;
          fits = λ z. z;
          ends = omega arith;
          bounded = k;
          stops = other;
          split = refl;
        }))
    where
      next :
          (c q : ℕ)
          → is_digit b ≡ true
          → would_overflow negative n (b - b'0') ≡ false
          → ((n * 10 + (b - b'0')) == 0 && is_digit c) ≡ false
          → q ≡ p + 1
          → ByteAt input p c
          → (found : ℕ × ℕ) (r : ℕ) → MagnitudeRead negative (n * 10 + (b - b'0')) c q found r
          → MagnitudeRead negative n b p found r
      next c q digit small lead e at found r l =
          let d = is_digit→IsDigit b digit in
          record {
            digits = b ∷ l.digits;
            all_digits = (d, l.all_digits);
            canonical = λ z _.
                IsCanonical-step n b c found.1 l.digits _ _ d z lead l.stops l.all_digits l.split;
            denoted = l.denoted;
            fits =
                λ z. l.fits (would_overflow-limit negative n (b - b'0') small (omega (arith, d)));
            ends = omega (arith, l.ends);
            bounded = l.bounded;
            stops = l.stops;
            split = ap (λ x. b ∷ x) (rw (at.here, ← e, l.split));
          }

  record SignRead (b p : ℕ) (found : Bool × ℕ) (q : ℕ) : Type 0 where
    ends : q ≡ p + length (sign found.0)
    bounded : q ≤ input.length
    split : b ∷ rest input p ≡ sign found.0 ++ found.1 ∷ rest input q

  read_sign-Ensures :
      (start b p : ℕ) → p ≤ input.length → Ensures start (SignRead b p) (read_sign input start b p)
  unfolding read_sign
  read_sign-Ensures start b p h =
      Ensures-if (b == b'-')
        (λ minus.
          Ensures-continue (Ensures-restore (consume_current_byte-Ensures input p)) (λ c q (e, at).
            let at' : ByteAt input p c = at in
            holds (record {
              ends = e;
              bounded = omega (arith, at'.inside);
              split = rw ((==_iff b b'-').0 minus, at'.here, e);
            })))
        (λ _. holds (record { ends = omega arith; bounded = h; split = refl }))

  -- The first digit of a magnitude is not 0 behind a minus sign, so the magnitude is not 0.
  negative_pos :
      (c m : ℕ) (ds t u : Bytes)
      → AllDigits ds
      → c ∷ t ≡ ds ++ b'e' ∷ u
      → c ≢ b'0'
      → c ≢ b'e'
      → m ≡ decimal 0 ds
      → 0 < m
  negative_pos c m [] t u all e z k d = absurd (k (cc))
  negative_pos c m (x ∷ ds) t u all e z k d =
      let same : c ≡ x = cc in omega (arith, d, decimal-le (0 * 10 + (x - b'0')) ds)

  -- The parts of an accepted integer, put together.
  whole :
      (p first b q₁ q₂ : ℕ) (found : Bool × ℕ) (q₃ : ℕ) (result : ℕ × ℕ) (q₄ : ℕ)
      → (first == b'i') ≡ true
      → not (found.1 == b'e') ≡ true
      → not (found.0 && found.1 == b'0') ≡ true
      → (result.1 == b'e') ≡ true
      → q₁ ≡ p + 1
      → ByteAt input p first
      → q₂ ≡ q₁ + 1
      → ByteAt input q₁ b
      → SignRead b q₂ found q₃
      → MagnitudeRead found.0 0 found.1 q₃ result q₄
      → (w : Bytes) × EncodesInteger (integer_value found.0 result.0) w × Between input p w q₄
  whole p first b q₁ q₂ (negative, c) q₃ (m, last) q₄ is_i not_e not_zero is_e e₁ at₁ e₂ at₂ s l = (
    b'i' ∷ (sign negative ++ (l.digits ++ b'e' ∷ [])),
    record {
      digits = l.digits;
      canonical = l.canonical refl (ne_nil l.digits ends_e);
      all_digits = l.all_digits;
      denoted = sym l.denoted ∙ sym parts.0;
      in_range = parts.1;
      written = sym parts.2;
    },
    record {
      ends = omega (
        arith,
        e₁,
        e₂,
        s.ends,
        l.ends,
        length-append (sign negative) (l.digits ++ b'e' ∷ []),
        length-append l.digits (b'e' ∷ []),
      );
      bounded = l.bounded;
      split =
          rw (at₁.here, ← e₁, at₂.here, ← e₂, s.split, ends_e, (==_iff first b'i').0 is_i)
            (simp append_assoc);
    },
  )
    where
      c_ne_e : c ≢ b'e'
      c_ne_e z = ground arith

      ends_e : c ∷ rest input q₃ ≡ l.digits ++ b'e' ∷ rest input q₄
      ends_e = rw (← (==_iff last b'e').0 is_e) l.split

      ne_nil : (ds : Bytes) → c ∷ rest input q₃ ≡ ds ++ b'e' ∷ rest input q₄ → ds ≢ []
      ne_nil ds e z = c_ne_e (ground arith)

      positive : negative ≡ true → 0 < m
      positive n =
          negative_pos c m l.digits _ _ l.all_digits ends_e (λ z. ground arith) c_ne_e l.denoted

      parts :
          (magnitude (integer_value negative m) ≡ m)
          × IsInt64 (integer_value negative m)
          × (written_integer (integer_value negative m) l.digits
              ≡ b'i' ∷ (sign negative ++ (l.digits ++ b'e' ∷ [])))
      parts = integer_value_lem negative m l.digits positive (l.fits (omega arith))

  -- An integer that is accepted stands in the input in its one encoding, and is in range.
  pub parse_bencode_integer-Ensures :
      (p : ℕ)
      → Ensures p
          (λ i q. (w : Bytes) × EncodesInteger i w × Between input p w q)
          (parse_bencode_integer input p)
  unfolding parse_bencode_integer
  parse_bencode_integer-Ensures p =
      Ensures-continue (Ensures-restore (consume_current_byte-Ensures input p))
        λ first q₁ (e₁, at₁). Ensures-require (first == b'i') _ λ is_i.
          Ensures-continue (Ensures-restore (consume_current_byte-Ensures input q₁))
            λ b q₂ (e₂, at₂).
              Ensures-continue (read_sign-Ensures p b q₂ (within q₁ q₂ b e₂ at₂)) λ found q₃ s.
                Ensures-require (not (found.1 == b'e')) _ λ not_e.
                  Ensures-require (not (found.0 && found.1 == b'0')) _ λ not_zero.
                    Ensures-continue
                      (magnitude_loop-Ensures (suc input.length) p found.0 0 found.1 q₃
                        (omega arith) (sign_within b q₂ found q₃ s))
                      λ result q₄ l.
                        Ensures-choice (result.1 == b'e') _ _
                          (λ is_e. holds (
                            whole p first b q₁ q₂ found q₃ result q₄ is_i not_e not_zero is_e e₁ at₁
                              e₂ at₂ s l))
                          (λ _. rejected refl)
    where
      within : (q₁ q₂ b : ℕ) → q₂ ≡ q₁ + 1 → ByteAt input q₁ b → q₂ ≤ input.length
      within q₁ q₂ b e at = omega (arith, at.inside)

      sign_within :
          (b q₂ : ℕ) (found : Bool × ℕ) (q₃ : ℕ) → SignRead b q₂ found q₃ → q₃ ≤ input.length
      sign_within b q₂ found q₃ s = s.bounded
