-- ===== src/Bencode/Complete/Heads.antt =====
-- The first byte of an encoded object tells its type, and is not the closing `e`.
use loco.Base.{ℕ, ◌≡◌, ◌≢◌, refl, [], ◌∷◌, ◌++◌, Bytes, arith, false, ℤ, pos, negsuc, ◌==◌}
use loco.Bencode.Types.{type_of, DataType, Value}
use loco.Bencode.Strings.{determine_bencode_data_type}
use loco.Bencode.Grammar.{
  AllDigits, written_integer, EncodesValue, encodes_integer, encodes_string, encodes_list,
  encodes_dictionary,
}

-- The text begins with a byte of that type.
pub record Head (t : DataType) (w : Bytes) : Type 0 where
  pub byte : ℕ
  pub others : Bytes
  pub shape : w ≡ byte ∷ others
  pub typed : determine_bencode_data_type byte ≡ t
  pub not_end : (byte == b'e') ≡ false

pub string-Head :
    (ds t w : Bytes) → ds ≢ [] → AllDigits ds → w ≡ ds ++ t → Head DataType.byte_string w
unfolding determine_bencode_data_type
string-Head [] t w ne all e = absurd (ne refl)
string-Head (d ∷ ds) t w ne all e = record {
  byte = d;
  others = ds ++ t;
  shape = e;
  typed = ground arith;
  not_end = ground arith;
}

integer-Head : (i : ℤ) (ds w : Bytes) → w ≡ written_integer i ds → Head DataType.integer w
unfolding determine_bencode_data_type
integer-Head (pos n) ds w e = record {
  byte = b'i';
  others = ds ++ b'e' ∷ [];
  shape = e;
  typed = refl;
  not_end = refl;
}
integer-Head (negsuc n) ds w e = record {
  byte = b'i';
  others = b'-' ∷ (ds ++ b'e' ∷ []);
  shape = e;
  typed = refl;
  not_end = refl;
}

pub EncodesValue-Head : {v : Value} {p : ℕ} {w : Bytes} → EncodesValue v p w → Head (type_of v) w
unfolding determine_bencode_data_type
EncodesValue-Head {w} (encodes_integer {i} g) = integer-Head i g.digits w g.written
EncodesValue-Head {w} (encodes_string {s} g) =
    string-Head g.digits (b':' ∷ s) w g.some_digit g.all_digits g.written
EncodesValue-Head (encodes_list inner xs n c e) = record {
  byte = b'l';
  others = inner ++ b'e' ∷ [];
  shape = e;
  typed = refl;
  not_end = refl;
}
EncodesValue-Head (encodes_dictionary inner es s n c e) = record {
  byte = b'd';
  others = inner ++ b'e' ∷ [];
  shape = e;
  typed = refl;
  not_end = refl;
}
