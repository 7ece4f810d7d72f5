-- ===== src/Bencode/Sound/Buffer.antt =====
-- What `parse_bencode_buffer` promises, on a parser at any position.
use loco.Base.{ℕ, suc, ◌≤◌, ◌≡◌, ◌≢◌, sym, ap, ◌∙◌, length, arith}
use loco.Bencode.Types.{Object}
use loco.Bencode.Action.{Outcome, ok, failed, out_of_fuel}
use loco.Bencode.Cursor.{ParserState}
use loco.Bencode.Arrays.{Allocator}
use loco.Bencode.Parser.{parse_object, parse_bencode_buffer}
use loco.Bencode.Ensures.{Ensures, holds, rejected, Ensures-ok, Ensures-failed}
use loco.Bencode.Sound.Lists.{Parsed}
use loco.Bencode.Sound.Objects.{parse_object-Ensures}

Ensures-out_of_fuel :
    {A : Type 0} {P : A → ℕ → Type 0} {back p : ℕ} {r : Outcome A × ℕ}
    → Ensures back P r
    → r ≢ (out_of_fuel, p)
Ensures-out_of_fuel (holds h) = λ e. cc
Ensures-out_of_fuel (rejected h) = λ e. cc

module _ (realloc : Allocator) (s : ParserState)
    (sized : s.input.length ≤ length s.input.bytes) where
  run-Ensures :
      Ensures s.position
        (Parsed s.input s.position)
        (parse_object realloc s.input (suc s.input.length) s.position)
  run-Ensures =
      parse_object-Ensures realloc s.input sized (suc s.input.length) s.position (omega arith)

  -- An object that is returned is the one that the bytes between the old and the new position
  -- encode, and those bytes lie inside the input, whose block holds as many bytes as its length says.
  pub parse_bencode_buffer_sound :
      (x : Object) (s' : ParserState)
      → parse_bencode_buffer realloc s ≡ (ok x, s')
      → (s'.input ≡ s.input) × Parsed s.input s.position x s'.position
  unfolding parse_bencode_buffer
  parse_bencode_buffer_sound x s' e =
      (ap (λ r. r.1.input) (sym e), Ensures-ok run-Ensures (ap (λ r. (r.0, r.1.position)) e))

  -- A failure leaves the parser as it was, wherever in a nested document it arose, on an input whose
  -- block holds as many bytes as its length says.
  pub parse_bencode_buffer_restores :
      (s' : ParserState) → parse_bencode_buffer realloc s ≡ (failed, s') → s' ≡ s
  unfolding parse_bencode_buffer
  parse_bencode_buffer_restores s' e =
      sym (ap (λ r. r.1) e)
      ∙ ap (λ n. record s { position = n })
          (ap (λ r. r.1.position) e ∙ Ensures-failed run-Ensures (ap (λ r. (r.0, r.1.position)) e))

  -- The run ends: the fuel is enough for every input whose block holds as many bytes as its length
  -- says.
  pub parse_bencode_buffer_total : (parse_bencode_buffer realloc s).0 ≢ out_of_fuel
  unfolding parse_bencode_buffer
  parse_bencode_buffer_total e =
      Ensures-out_of_fuel {p = (parse_object realloc s.input (suc s.input.length) s.position).1}
        run-Ensures
        (ap (λ r. (r, (parse_object realloc s.input (suc s.input.length) s.position).1)) e)
