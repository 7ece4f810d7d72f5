-- ===== src/Bencode/Complete/Objects.antt =====
-- `parse_bencode_buffer` accepts exactly the format.
use loco.Base.{
  ℕ, zero, suc, ◌-◌, ◌≤◌, ◌<◌, ◌≡◌, ◌↔◌, ap, subst, ◌∷◌, Bytes, arith, length, length-append,
}
use loco.Bencode.Types.{type_of, Object, Value, object}
use loco.Bencode.Action.{ok, Action}
use loco.Bencode.Cursor.{Input, ParserState}
use loco.Bencode.Arrays.{Allocator}
use loco.Bencode.Parser.{parse_value, parse_object, parse_bencode_buffer}
use loco.Bencode.Grammar.{
  Encodes, EncodesValue, encodes, encodes_integer, encodes_string, encodes_list, encodes_dictionary,
}
use loco.Bencode.Sound.Cursor.{Between}
use loco.Bencode.Sound.Buffer.{parse_bencode_buffer_sound}
use loco.Bencode.Complete.Cursor.{peek_here}
use loco.Bencode.Complete.Strings.{parse_bencode_string-Between}
use loco.Bencode.Complete.Integers.{parse_bencode_integer-Between}
use loco.Bencode.Complete.Arrays.{document_max, Grants}
use loco.Bencode.Complete.Heads.{Head, EncodesValue-Head}
use loco.Bencode.Complete.Lists.{Accepts, parse_bencode_list-Between}
use loco.Bencode.Complete.Dictionaries.{parse_bencode_dict-Between}

module _ (realloc : Allocator) (input : Input) (all : Grants realloc)
    (small : input.length ≤ document_max) where
  parse_value-Between :
      (parse : Action Object) (p q : ℕ) (v : Value) (w : Bytes)
      → Accepts input p parse
      → EncodesValue v p w
      → Between input p w q
      → parse_value realloc input parse (type_of v) p p ≡ (ok v, q)
  unfolding parse_value
  parse_value-Between parse p q _ w a (encodes_integer {i} g) at =
      rw (parse_bencode_integer-Between input p q i w g at)
  parse_value-Between parse p q _ w a (encodes_string {s} g) at = rw (
      parse_bencode_string-Between input p q s w g
        (omega (arith, at.ends, at.bounded, ap length g.written, length-append g.digits (b':' ∷ s)))
        at)
  parse_value-Between parse p q _ w a (encodes_list {xs} inner g n c e) at = rw (
    parse_bencode_list-Between realloc input all p parse a q xs inner small g
        (subst (λ t. Between input p t q) e at),
    c,
    n,
  )
  parse_value-Between parse p q _ w a (encodes_dictionary {es} inner g s n c e) at = rw (
    parse_bencode_dict-Between realloc input all small p parse a q es inner g s
        (subst (λ t. Between input p t q) e at),
    c,
    n,
  )

  parse_object-Between :
      (f p q : ℕ) (x : Object) (w : Bytes)
      → input.length - p < f
      → Encodes x p w
      → Between input p w q
      → parse_object realloc input f p ≡ (ok x, q)
  unfolding parse_object
  parse_object-Between zero p q x w h g at = absurd (omega arith)
  parse_object-Between (suc f) p q _ w h (encodes {v} {start} {n} g s e) at =
      rw
        (
          peek_here input first_at,
          head.typed,
          parse_value-Between (parse_object realloc input f) p q v w
              (λ m r y u k g' at'.
                parse_object-Between f m r y u (omega (arith, first_at.ends, first_at.bounded)) g'
                  at')
              g at,
          s,
          e,
        )
        (ap (λ k. (ok (object v p k), q)) (omega (arith, at.ends)))
    where
      head : Head (type_of v) w
      head = EncodesValue-Head g

      first_at : Between input p (head.byte ∷ head.others) q
      first_at = subst (λ t. Between input p t q) head.shape at

-- The parser succeeds with an object and a new position exactly when the bytes up to that position
-- are an encoding of the object by the grammar, in which integers have no leading zeros and no `-0`, keys
-- are in order, and lengths of strings may have leading zeros: on a document of at most 2^56 bytes, which its block holds, where memory
-- is granted.
pub parse_bencode_buffer_iff :
    (realloc : Allocator) (s : ParserState) (x : Object) (q : ℕ)
    → Grants realloc
    → s.input.length ≤ length s.input.bytes
    → s.input.length ≤ document_max
    → (parse_bencode_buffer realloc s ≡ (ok x, record s { position = q }))
      ↔ ((w : Bytes) × Encodes x s.position w × Between s.input s.position w q)
unfolding parse_bencode_buffer
parse_bencode_buffer_iff realloc s x q all sized small = (sound, complete)
  where
    sound :
        parse_bencode_buffer realloc s ≡ (ok x, record s { position = q })
        → (w : Bytes) × Encodes x s.position w × Between s.input s.position w q
    sound e =
        let h = (parse_bencode_buffer_sound realloc s sized x (record s { position = q }) e).1 in
        (h.text, h.encoded, h.between)

    complete :
        ((w : Bytes) × Encodes x s.position w × Between s.input s.position w q)
        → parse_bencode_buffer realloc s ≡ (ok x, record s { position = q })
    complete (w, g, at) =
        ap (λ r. (r.0, record s { position = r.1 }))
          (parse_object-Between realloc s.input all small (suc s.input.length) s.position q x w
            (omega arith) g at)
