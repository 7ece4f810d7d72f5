-- ===== src/Bencode/Sound/Objects.antt =====
-- `parse_bencode_buffer`: it accepts nothing but the format, always ends, and restores the position
-- where it fails.
use loco.Base.{
  ℕ, zero, suc, ◌-◌, ◌≤◌, ◌<◌, ◌≡◌, refl, ap, ℤ, pos, negsuc, Bytes, arith, length, length-append,
}
use loco.Bencode.Types.{Object, Value, DataType, object}
use loco.Bencode.Action.{Action}
use loco.Bencode.Cursor.{Input}
use loco.Bencode.Strings.{determine_bencode_data_type}
use loco.Bencode.Arrays.{Allocator}
use loco.Bencode.Parser.{parse_value, parse_object}
use loco.Bencode.Ensures.{Ensures, holds, rejected, Ensures-continue, Ensures-restore}
use loco.Bencode.Grammar.{
  written_integer, EncodesValue, encodes, encodes_integer, encodes_string, encodes_list,
  encodes_dictionary,
}
use loco.Bencode.Sound.Cursor.{ByteAt, Between, peek_current_byte-Ensures}
use loco.Bencode.Sound.Strings.{parse_bencode_string-Ensures}
use loco.Bencode.Sound.Integers.{parse_bencode_integer-Ensures}
use loco.Bencode.Sound.Lists.{Parsed, parse_bencode_list-Ensures}
use loco.Bencode.Sound.Dictionaries.{parse_bencode_dict-Ensures}

length-written_integer : (i : ℤ) (ds : Bytes) → 0 < length (written_integer i ds)
length-written_integer (pos n) ds = omega arith
length-written_integer (negsuc n) ds = omega arith

EncodesValue-pos : {v : Value} {p : ℕ} {w : Bytes} → EncodesValue v p w → 0 < length w
EncodesValue-pos (encodes_integer {i} e) =
    omega (arith, ap length e.written, length-written_integer i e.digits)
EncodesValue-pos (encodes_string e) = omega (arith, ap length e.written, length-append e.digits)
EncodesValue-pos (encodes_list inner xs n c e) = omega (arith, ap length e)
EncodesValue-pos (encodes_dictionary inner es s n c e) = omega (arith, ap length e)

module _ (realloc : Allocator) (input : Input) (sized : input.length ≤ length input.bytes) where
  parse_value-Ensures :
      (parse : Action Object) (t : DataType) (start : ℕ)
      → ((p : ℕ) → start < p → Ensures p (Parsed input p) (parse p))
      → Ensures start
          (λ v q. (w : Bytes) × EncodesValue v start w × Between input start w q)
          (parse_value realloc input parse t start start)
  unfolding parse_value
  parse_value-Ensures parse DataType.byte_string start sound =
      Ensures-continue (Ensures-restore (parse_bencode_string-Ensures input start sized))
        λ s q (w, e, b). holds (w, encodes_string e, b)
  parse_value-Ensures parse DataType.integer start sound =
      Ensures-continue (Ensures-restore (parse_bencode_integer-Ensures input start))
        λ i q (w, e, b). holds (w, encodes_integer e, b)
  parse_value-Ensures parse DataType.list start sound =
      Ensures-continue
        (Ensures-restore (parse_bencode_list-Ensures realloc input parse start sound))
        λ l q h. holds h
  parse_value-Ensures parse DataType.dictionary start sound =
      Ensures-continue
        (Ensures-restore (parse_bencode_dict-Ensures realloc input sized parse start sound))
        λ d q h. holds h
  parse_value-Ensures parse DataType.invalid start sound = rejected refl

  -- By induction on the levels of nesting that the fuel allows.
  pub parse_object-Ensures :
      (f p : ℕ) → input.length - p < f → Ensures p (Parsed input p) (parse_object realloc input f p)
  unfolding parse_object
  parse_object-Ensures zero p h = absurd (omega arith)
  parse_object-Ensures (suc f) p h =
      Ensures-continue (peek_current_byte-Ensures input p) λ b q (e, at).
        let at' : ByteAt input p b = at in
        Ensures-continue
          (at_start (determine_bencode_data_type b) q e
            (λ m k. parse_object-Ensures f m (omega (arith, at'.inside))))
          λ v r (w, g, between). holds (stamped v r w g between)
    where
      at_start :
          (t : DataType) (q : ℕ)
          → q ≡ p
          → ((m : ℕ) → p < m → Ensures m (Parsed input m) (parse_object realloc input f m))
          → Ensures p
              (λ v r. (w : Bytes) × EncodesValue v p w × Between input p w r)
              (parse_value realloc input (parse_object realloc input f) t p q)
      at_start t q e sound = rw e (parse_value-Ensures (parse_object realloc input f) t p sound)

      stamped :
          (v : Value) (r : ℕ) (w : Bytes)
          → EncodesValue v p w
          → Between input p w r
          → Parsed input p (object v p (r - p)) r
      stamped v r w g between = record {
        text = w;
        encoded = encodes g refl (omega (arith, between.ends));
        some_byte = EncodesValue-pos g;
        between = between;
      }
