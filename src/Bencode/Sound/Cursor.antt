-- ===== src/Bencode/Sound/Cursor.antt =====
-- What reading a byte does, and stretches of the input between two positions.
use loco.Base.{
  ℕ, zero, suc, ◌+◌, ◌≤◌, ◌<◌, ◌≡◌, refl, Bool-cases, inl, inr, Option-cases, true, List, [], ◌∷◌,
  ◌++◌, append_assoc, some, Bytes, arith, tests, length, get_elem?, take, drop, length-append,
  length-take, length-drop, take-append-drop, drop-drop, ltb, ◌==◌, ==_iff,
}
use loco.Bencode.Cursor.{
  Input, peek_current_byte, consume_current_byte, bytes_exist_from_current_parser_position,
  read_bencode_string,
}
use loco.Bencode.Ensures.{Ensures, holds, rejected}

drop-get_elem? {ℓ} :
    {A : Type ℓ} (xs : List A) (p q : ℕ) (x : A)
    → get_elem? xs p ≡ some x
    → q ≡ suc p
    → drop p xs ≡ x ∷ drop q xs
drop-get_elem? [] p q x e s = cc
drop-get_elem? (y ∷ ys) zero q x e s = rw s (cc)
drop-get_elem? (y ∷ ys) (suc p) zero x e s = absurd (omega arith)
drop-get_elem? (y ∷ ys) (suc p) (suc q) x e s = drop-get_elem? ys p q x e (omega arith)

module _ (input : Input) where
  abbrev pub rest : ℕ → Bytes
  rest p = drop p input.bytes

  -- The byte at a position, inside the input.
  pub record ByteAt (p b : ℕ) : Type 0 where
    pub inside : p < input.length
    pub here : rest p ≡ b ∷ rest (p + 1)

  -- `w` is what the input holds from `p` up to `q`.
  pub record Between (p : ℕ) (w : Bytes) (q : ℕ) : Type 0 where
    pub ends : q ≡ p + length w
    pub bounded : q ≤ input.length
    pub split : rest p ≡ w ++ rest q

  pub peek_current_byte-Ensures :
      (p : ℕ) → Ensures p (λ b q. (q ≡ p) × ByteAt p b) (peek_current_byte input p)
  unfolding peek_current_byte
  peek_current_byte-Ensures p = elim (Bool-cases (ltb p input.length)) [
    | inl h ↦ rw h (elim (Option-cases (get_elem? input.bytes p)) [
      | inl e ↦ rw e (rejected refl)
      | inr (b, e) ↦ rw e (
          holds (
            refl,
            record {
              inside = omega tests;
              here = drop-get_elem? input.bytes p (p + 1) b e (omega arith);
            },
          ))
    ])
    | inr h ↦ rw h (rejected refl)
  ]

  pub consume_current_byte-Ensures :
      (p : ℕ) → Ensures p (λ b q. (q ≡ p + 1) × ByteAt p b) (consume_current_byte input p)
  unfolding consume_current_byte
  consume_current_byte-Ensures p = elim (Bool-cases (ltb p input.length)) [
    | inl h ↦ rw h (elim (Option-cases (get_elem? input.bytes p)) [
      | inl e ↦ rw e (rejected refl)
      | inr (b, e) ↦ rw e (
          holds (
            refl,
            record {
              inside = omega tests;
              here = drop-get_elem? input.bytes p (p + 1) b e (omega arith);
            },
          ))
    ])
    | inr h ↦ rw h (rejected refl)
  ]

  pub Between-byte : {p b : ℕ} → ByteAt p b → Between p (b ∷ []) (p + 1)
  Between-byte h = record { ends = refl; bounded = omega arith; split = h.here }

  -- A byte that was consumed, where it is known to be `c`.
  pub Between-consumed :
      {p q b c : ℕ} → ByteAt p b → (b == c) ≡ true → q ≡ p + 1 → Between p (c ∷ []) q
  Between-consumed {b} {c} h k e = record {
    ends = e;
    bounded = omega (arith, h.inside);
    split = rw (h.here, e, (==_iff b c).0 k);
  }

  pub Between-nil : (p : ℕ) → p ≤ input.length → Between p [] p
  Between-nil p h = record { ends = omega arith; bounded = h; split = refl }

  pub Between-append :
      {p q r : ℕ} {v w : Bytes} → Between p v q → Between q w r → Between p (v ++ w) r
  Between-append {v} {w} h k = record {
    ends = omega (arith, length-append v w);
    bounded = k.bounded;
    split = rw (h.split, k.split, append_assoc) refl;
  }

  -- Where the block holds the announced bytes, a string that fits is read whole.
  pub read_bencode_string-Ensures :
      (p n : ℕ)
      → input.length ≤ length input.bytes
      → bytes_exist_from_current_parser_position input p n ≡ true
      → Ensures p (λ s q. Between p s q × (length s ≡ n)) (read_bencode_string input n p)
  unfolding bytes_exist_from_current_parser_position read_bencode_string
  read_bencode_string-Ensures p n sized h = holds (
    record {
      ends = omega (arith, whole, fit);
      bounded = omega (arith, fit);
      split = rw (← drop-drop p n (p + n) input.bytes refl, take-append-drop n (rest p));
    },
    whole,
  )
    where
      fit : p + n ≤ input.length
      fit = ground arith

      whole : length (take n (rest p)) ≡ n
      whole = omega (arith, fit, length-take n (rest p), length-drop p input.bytes)
