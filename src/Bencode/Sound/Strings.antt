-- ===== src/Bencode/Sound/Strings.antt =====
-- `parse_bencode_string`: what it accepts, and what it returns.
use loco.Base.{
  ℕ, zero, suc, ◌+◌, ◌-◌, ◌*◌, ◌/◌, ◌≤◌, ◌<◌, ◌≡◌, refl, ap, ◌≢◌, ◌⊎◌, inr, true, false, [], ◌∷◌,
  ◌++◌, append_assoc, Bytes, arith, tests, size_max, length, length-append, ltb, ◌==◌, ==_iff,
}
use loco.Bencode.Types.{Segment}
use loco.Bencode.Cursor.{Input, bytes_exist_from_current_parser_position}
use loco.Bencode.Strings.{
  is_digit, string_length_loop, determine_byte_string_length, parse_bencode_string,
}
use loco.Bencode.Ensures.{
  Ensures, holds, rejected, Ensures-continue, Ensures-restore, Ensures-require, Ensures-mono,
  Ensures-if, Ensures-choice,
}
use loco.Bencode.Grammar.{IsDigit, AllDigits, decimal, EncodesString}
use loco.Bencode.Sound.Cursor.{
  rest, ByteAt, Between, consume_current_byte-Ensures, Between-append, read_bencode_string-Ensures,
}

pub is_digit→IsDigit : (b : ℕ) → is_digit b ≡ true → IsDigit b
is_digit→IsDigit b h = ground arith

-- A first byte that is a digit is one of the digits.
pub digits-ne-nil :
    (b c : ℕ) (ds t u : Bytes)
    → is_digit b ≡ true
    → IsDigit c ⊎ (b'9' < c)
    → b ∷ t ≡ ds ++ c ∷ u
    → b ≢ c
    → ds ≢ []
digits-ne-nil b c ds t u d k e n z = n (ground arith)

module _ (input : Input) where
  -- The digits from the current byte `b` on, up to the colon; the next byte to read is at `p`.
  record LengthRead (n b p m q : ℕ) : Type 0 where
    digits : Bytes
    all_digits : AllDigits digits
    denoted : m ≡ decimal n digits
    fits : n ≤ size_max → m ≤ size_max
    ends : q ≡ p + length digits
    bounded : q ≤ input.length
    split : b ∷ rest input p ≡ digits ++ b':' ∷ rest input q

  string_length_loop-Ensures :
      (f start n b p : ℕ)
      → input.length - p < f
      → p ≤ input.length
      → Ensures start (LengthRead n b p) (string_length_loop input f start n b p)
  unfolding string_length_loop
  string_length_loop-Ensures zero start n b p h k = absurd (omega arith)
  string_length_loop-Ensures (suc f) start n b p h k =
      Ensures-if (is_digit b)
        (λ digit.
          Ensures-if (ltb ((size_max - (b - b'0')) / 10) n) (λ _. rejected refl)
            (λ small.
              Ensures-continue (Ensures-restore (consume_current_byte-Ensures input p))
                (λ c q (e, at).
                  let at' : ByteAt input p c = at in
                  Ensures-mono
                    (string_length_loop-Ensures f start (n * 10 + (b - b'0')) c q
                      (omega (arith, at'.inside)) (omega (arith, at'.inside)))
                    (λ m r l. next c q digit small e at' m r l))))
        (λ _.
          Ensures-if (b == b':')
            (λ colon. holds (record {
              digits = [];
              all_digits = tt;
              denoted = refl;
              fits = λ z. z;
              ends = omega arith;
              bounded = k;
              split = ap (λ x. x ∷ rest input p) ((==_iff b b':').0 colon);
            }))
            (λ _. rejected refl))
    where
      next :
          (c q : ℕ)
          → is_digit b ≡ true
          → ltb ((size_max - (b - b'0')) / 10) n ≡ false
          → q ≡ p + 1
          → ByteAt input p c
          → (m r : ℕ) → LengthRead (n * 10 + (b - b'0')) c q m r
          → LengthRead n b p m r
      next c q digit small e at m r l = record {
        digits = b ∷ l.digits;
        all_digits = (is_digit→IsDigit b digit, l.all_digits);
        denoted = l.denoted;
        fits = λ z. l.fits (omega (tests, is_digit→IsDigit b digit));
        ends = omega (arith, l.ends);
        bounded = l.bounded;
        split = ap (λ x. b ∷ x) (rw (at.here, ← e, l.split));
      }

  -- The announced length, with its colon.
  record PrefixRead (p m q : ℕ) : Type 0 where
    digits : Bytes
    some_digit : digits ≢ []
    all_digits : AllDigits digits
    denoted : m ≡ decimal 0 digits
    fits : m ≤ size_max
    between : Between input p (digits ++ b':' ∷ []) q

  determine_byte_string_length-Ensures :
      (p : ℕ) → Ensures p (PrefixRead p) (determine_byte_string_length input p)
  unfolding determine_byte_string_length
  determine_byte_string_length-Ensures p =
      Ensures-continue (Ensures-restore (consume_current_byte-Ensures input p)) (λ b q (e, at).
        Ensures-choice (is_digit b) _ _
          (λ digit.
            let at' : ByteAt input p b = at in
            Ensures-mono
              (string_length_loop-Ensures (suc input.length) p 0 b q (omega arith)
                (omega (arith, at'.inside)))
              (λ m r l. prefix b q digit e at' m r l))
          (λ _. rejected refl))
    where
      prefix :
          (b q : ℕ)
          → is_digit b ≡ true
          → q ≡ p + 1
          → ByteAt input p b
          → (m r : ℕ) → LengthRead 0 b q m r
          → PrefixRead p m r
      prefix b q digit e at m r l = record {
        digits = l.digits;
        some_digit =
            digits-ne-nil b b':' l.digits _ _ digit (inr (omega arith)) l.split
              (omega (arith, is_digit→IsDigit b digit));
        all_digits = l.all_digits;
        denoted = l.denoted;
        fits = l.fits (omega arith);
        between = record {
          ends = omega (arith, l.ends, length-append l.digits (b':' ∷ []));
          bounded = l.bounded;
          split = rw (at.here, ← e, l.split, append_assoc) refl;
        };
      }

  -- A string that is accepted stands in the input: its length, a colon and its bytes.
  pub parse_bencode_string-Ensures :
      (p : ℕ)
      → input.length ≤ length input.bytes
      → Ensures p
          (λ s q. (w : Bytes) × EncodesString s w × Between input p w q)
          (parse_bencode_string input p)
  unfolding parse_bencode_string
  parse_bencode_string-Ensures p sized =
      Ensures-continue (Ensures-restore (determine_byte_string_length-Ensures p)) λ m q l.
        Ensures-require (bytes_exist_from_current_parser_position input q m) _ λ there.
          Ensures-mono (Ensures-restore (read_bencode_string-Ensures input q m sized there))
            λ s r b. joined m q s r l b.0 b.1
    where
      joined :
          (m q : ℕ) (s : Segment) (r : ℕ)
          → PrefixRead p m q
          → Between input q s r
          → length s ≡ m
          → (w : Bytes) × EncodesString s w × Between input p w r
      joined m q s r l b e = (
        (l.digits ++ b':' ∷ []) ++ s,
        record {
          digits = l.digits;
          some_digit = l.some_digit;
          all_digits = l.all_digits;
          announced = omega (arith, l.denoted);
          written = append_assoc l.digits (b':' ∷ []) s;
        },
        Between-append input l.between b,
      )
