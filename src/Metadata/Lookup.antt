-- ===== src/Metadata/Lookup.antt =====
-- src/torrent_metadata.c: `find_entry_in_dictionary` finds the entry of that key.
use loco.Base.{
  ℕ, ◌≡◌, ◌≢◌, ◌↔◌, refl, sym, ap, subst, ◌∙◌, ◌⊎◌, inl, inr, true, false, Bool-cases, some, [],
  ◌∷◌, arith, length, get_or, same_bytes, same_bytes_iff, ◌==◌, ==_iff,
}
use loco.Bencode.Types.{
  Segment, DataType, Object, Entries, dictionary, object, no_entries, entry, value, type_of,
  count_entries,
}
use loco.Bencode.Grammar.{KeyBelow, SortedKeys}
use loco.Metadata.{enumerator, same_type, find_loop, find_entry_in_dictionary}

abbrev pub IsEntry : Entries → Segment → Object → Type 0
IsEntry no_entries k x = ⊥
IsEntry (entry j y es) k x = ((j ≡ k) × (y ≡ x)) ⊎ IsEntry es k x

abbrev type_at : ℕ → DataType
type_at n =
    get_or (DataType.integer ∷ DataType.byte_string ∷ DataType.list ∷ DataType.dictionary ∷ []) n
      DataType.invalid

type_at-enumerator : (a : DataType) → type_at (enumerator a) ≡ a
type_at-enumerator DataType.integer = refl
type_at-enumerator DataType.byte_string = refl
type_at-enumerator DataType.list = refl
type_at-enumerator DataType.dictionary = refl
type_at-enumerator DataType.invalid = refl

pub same_type_iff : (a b : DataType) → (same_type a b ≡ true) ↔ (a ≡ b)
same_type_iff a b = (
  λ h.
      sym (type_at-enumerator a)
      ∙ ap type_at ((==_iff (enumerator a) (enumerator b)).0 h)
      ∙ type_at-enumerator b,
  λ e. (==_iff (enumerator a) (enumerator b)).1 (ap enumerator e),
)

KeyBelow-trans : (a b c : Segment) → KeyBelow a b → KeyBelow b c → KeyBelow a c
KeyBelow-trans [] [] c h k = absurd h
KeyBelow-trans (x ∷ a) [] c h k = absurd h
KeyBelow-trans [] (y ∷ b) [] h k = absurd k
KeyBelow-trans [] (y ∷ b) (z ∷ c) h k = tt
KeyBelow-trans (x ∷ a) (y ∷ b) [] h k = absurd k
KeyBelow-trans (x ∷ a) (y ∷ b) (z ∷ c) (inl h) (inl k) = inl (omega (arith, h, k))
KeyBelow-trans (x ∷ a) (y ∷ b) (z ∷ c) (inl h) (inr (e, k)) = inl (omega (arith, h, e))
KeyBelow-trans (x ∷ a) (y ∷ b) (z ∷ c) (inr (e, h)) (inl k) = inl (omega (arith, e, k))
KeyBelow-trans (x ∷ a) (y ∷ b) (z ∷ c) (inr (e, h)) (inr (f, k)) =
    inr (e ∙ f, KeyBelow-trans a b c h k)

pub KeyBelow-ne : (a b : Segment) → KeyBelow a b → a ≢ b
KeyBelow-ne [] [] h e = absurd h
KeyBelow-ne [] (y ∷ b) h e = cc
KeyBelow-ne (x ∷ a) [] h e = absurd h
KeyBelow-ne (x ∷ a) (y ∷ b) (inl h) e = let same : x ≡ y = cc in absurd (omega (arith, h, same))
KeyBelow-ne (x ∷ a) (y ∷ b) (inr (f, h)) e = KeyBelow-ne a b h (cc)

-- The keys behind the first one are above it.
pub later-KeyBelow :
    (j k : Segment) (y x : Object) (es : Entries)
    → SortedKeys (entry j y es)
    → IsEntry es k x
    → KeyBelow j k
later-KeyBelow j k y x no_entries s h = absurd h
later-KeyBelow j k y x (entry i z es) s (inl (e, _)) = subst (λ w. KeyBelow j w) e s.0
later-KeyBelow j k y x (entry i z es) s (inr h) =
    KeyBelow-trans j i k s.0 (later-KeyBelow i k z x es s.1 h)

pub later-SortedKeys :
    (j : Segment) (y : Object) (es : Entries) → SortedKeys (entry j y es) → SortedKeys es
later-SortedKeys j y no_entries s = tt
later-SortedKeys j y (entry i z es) s = s.1

-- A key has one entry.
pub IsEntry-unique :
    (es : Entries) (k : Segment) (x y : Object)
    → SortedKeys es
    → IsEntry es k x
    → IsEntry es k y
    → x ≡ y
IsEntry-unique no_entries k x y s h h' = absurd h
IsEntry-unique (entry j z es) k x y s (inl (_, e)) (inl (_, e')) = sym e ∙ e'
IsEntry-unique (entry j z es) k x y s (inl (e, _)) (inr h) =
    absurd (KeyBelow-ne j k (later-KeyBelow j k z y es s h) e)
IsEntry-unique (entry j z es) k x y s (inr h) (inl (e, _)) =
    absurd (KeyBelow-ne j k (later-KeyBelow j k z x es s h) e)
IsEntry-unique (entry j z es) k x y s (inr h) (inr h') =
    IsEntry-unique es k x y (later-SortedKeys j z es s) h h'

pub find_loop-found :
    (es : Entries) (k : Segment) (t : DataType) (x : Object)
    → find_loop (count_entries es) es k t ≡ some x
    → IsEntry es k x × (type_of (value x) ≡ t)
unfolding find_loop
find_loop-found no_entries k t x e = cc
find_loop-found (entry j y es) k t x e = elim (Bool-cases (length j == length k)) [
  | inr other ↦ let (h, ty) = find_loop-found es k t x (ground (arith, e, other)) in (inr h, ty)
  | inl sized ↦ elim (Bool-cases (same_bytes j k)) [
    | inr other ↦
        let (h, ty) = find_loop-found es k t x (ground (arith, e, sized, other)) in (inr h, ty)
    | inl same ↦ elim (Bool-cases (same_type (type_of (value y)) t)) [
      | inr other ↦
          let (h, ty) = find_loop-found es k t x (ground (arith, e, sized, same, other)) in
          (inr h, ty)
      | inl typed ↦
          let it : y ≡ x = ground (arith, e, sized, same, typed) in
          (
            inl ((same_bytes_iff j k).0 same, it),
            ap (λ (z : Object). type_of (value z)) (sym it) ∙ (same_type_iff _ _).0 typed,
          )
    ]
  ]
]

find_loop-finds :
    (es : Entries) (k : Segment) (t : DataType) (x : Object)
    → SortedKeys es
    → IsEntry es k x
    → type_of (value x) ≡ t
    → find_loop (count_entries es) es k t ≡ some x
unfolding find_loop
find_loop-finds no_entries k t x s h ty = absurd h
find_loop-finds (entry j y es) k t x s (inl (e, it)) ty =
    rw
      (
        (==_iff (length j) (length k)).1 (ap length e),
        (same_bytes_iff j k).1 e,
        (same_type_iff (type_of (value y)) t).1 (ap (λ (z : Object). type_of (value z)) it ∙ ty),
      )
      (ap some it)
find_loop-finds (entry j y es) k t x s (inr h) ty =
    let other : same_bytes j k ≡ false = elim (Bool-cases (same_bytes j k)) [
      | inl same ↦
          absurd (KeyBelow-ne j k (later-KeyBelow j k y x es s h) ((same_bytes_iff j k).0 same))
      | inr e ↦ e
    ] in
    let next = find_loop-finds es k t x (later-SortedKeys j y es s) h ty in
    elim (Bool-cases (length j == length k)) [
      | inl sized ↦ rw (sized, other) next
      | inr differs ↦ rw differs next
    ]

-- In a dictionary with sorted keys, the object that is found is the one entry of that key, of that
-- type.
pub find_entry_in_dictionary_iff :
    (es : Entries) (capacity start size : ℕ) (k : Segment) (t : DataType) (x : Object)
    → SortedKeys es
    → (find_entry_in_dictionary (object (dictionary es (count_entries es) capacity) start size) k t
        ≡ some x)
      ↔ (IsEntry es k x × (type_of (value x) ≡ t))
unfolding find_entry_in_dictionary value
find_entry_in_dictionary_iff es capacity start size k t x s =
    (find_loop-found es k t x, λ (h, ty). find_loop-finds es k t x s h ty)
