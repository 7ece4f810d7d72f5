-- ===== src/Bencode/Complete/Strings.antt =====
-- Every encoded string is accepted.
use mathlib.Core.List.{tail}
use loco.Base.{
  ℕ, zero, suc, ◌+◌, ◌-◌, ◌*◌, ◌/◌, ◌≤◌, ◌<◌, ◌≡◌, ◌≢◌, refl, sym, ap, subst, ◌∙◌, true, false, [],
  ◌∷◌, ◌++◌, append_assoc, Bytes, arith, size_max, length, length-append, ltb, le→not_ltb,
}
use loco.Bencode.Types.{Segment}
use loco.Bencode.Action.{ok}
use loco.Bencode.Cursor.{Input}
use loco.Bencode.Strings.{
  is_digit, string_length_loop, determine_byte_string_length, parse_bencode_string,
}
use loco.Bencode.Grammar.{IsDigit, AllDigits, decimal, EncodesString}
use loco.Bencode.Sound.Cursor.{Between}
use loco.Bencode.Sound.Integers.{decimal-le}
use loco.Bencode.Complete.Cursor.{
  consume_here, Between-tail, Between-first, Between-rest, bytes_exist_here, read_here,
}

pub IsDigit→is_digit : (b : ℕ) → IsDigit b → is_digit b ≡ true
IsDigit→is_digit b h = ground arith

module _ (input : Input) where
  string_length_loop-Between :
      (f start n b p q : ℕ) (ds u : Bytes)
      → input.length - p < f
      → AllDigits ds
      → decimal n ds ≤ size_max
      → b ∷ u ≡ ds ++ b':' ∷ []
      → Between input p u q
      → string_length_loop input f start n b p ≡ (ok (decimal n ds), q)
  unfolding string_length_loop
  string_length_loop-Between zero start n b p q ds u h all small e at = absurd (omega arith)
  string_length_loop-Between (suc f) start n b p q [] u h all small e at =
      let colon : b ≡ b':' = cc in
      let empty : u ≡ [] = cc in
      let same : q ≡ p = omega (arith, at.ends, ap length empty) in rw (colon, same)
  string_length_loop-Between (suc f) start n b p q (d ∷ ds) [] h all small e at =
      absurd (omega (arith, ap length e, length-append ds (b':' ∷ [])))
  string_length_loop-Between (suc f) start n b p q (d ∷ ds) (c ∷ u) h all small e at =
      let same : b ≡ d = cc in
      let others : c ∷ u ≡ ds ++ b':' ∷ [] = ap tail e in
      let fits : ltb ((size_max - (d - b'0')) / 10) n ≡ false =
        le→not_ltb _ _ (omega (arith, all.0, decimal-le (n * 10 + (d - b'0')) ds)) in
      rw (same, IsDigit→is_digit d all.0, fits, consume_here input at)
        (string_length_loop-Between f start (n * 10 + (d - b'0')) c (p + 1) q ds u
          (omega (arith, at.ends, at.bounded)) all.1 small others (Between-tail input at))

  determine_byte_string_length-Between :
      (p q : ℕ) (ds : Bytes)
      → ds ≢ []
      → AllDigits ds
      → decimal 0 ds ≤ size_max
      → Between input p (ds ++ b':' ∷ []) q
      → determine_byte_string_length input p ≡ (ok (decimal 0 ds), q)
  unfolding determine_byte_string_length
  determine_byte_string_length-Between p q [] ne all small at = absurd (ne refl)
  determine_byte_string_length-Between p q (d ∷ ds) ne all small at =
      rw (consume_here input at, IsDigit→is_digit d all.0)
        (string_length_loop-Between (suc input.length) p 0 d (p + 1) q (d ∷ ds) (ds ++ b':' ∷ [])
          (omega arith) all small refl (Between-tail input at))

  pub parse_bencode_string-Between :
      (p q : ℕ) (s : Segment) (w : Bytes)
      → EncodesString s w
      → length s ≤ size_max
      → Between input p w q
      → parse_bencode_string input p ≡ (ok s, q)
  unfolding parse_bencode_string
  parse_bencode_string-Between p q s w g small at =
      rw (length_read, g.announced, bytes_exist_here input string_at, read_here input string_at)
    where
      prefix : Bytes
      prefix = g.digits ++ b':' ∷ []

      all_at : Between input p (prefix ++ s) q
      all_at =
          subst (λ t. Between input p t q) (g.written ∙ sym (append_assoc g.digits (b':' ∷ []) s))
            at

      string_at : Between input (p + length prefix) s q
      string_at = Between-rest input prefix s all_at

      length_read :
          determine_byte_string_length input p ≡ (ok (decimal 0 g.digits), p + length prefix)
      length_read =
          determine_byte_string_length-Between p (p + length prefix) g.digits g.some_digit
            g.all_digits (omega (arith, g.announced)) (Between-first input prefix s all_at)
