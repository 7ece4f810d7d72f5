-- ===== src/Peer/Bitfield/Laws.antt =====
-- What is known of the peer's pieces after a `have` or a `bitfield` message.
use Prim.Native.Nat.{bit_and}
use loco.Base.{
  AllBytes, ℕ, zero, suc, ◌-◌, ◌/◌, ◌%◌, ◌^◌, ◌<◌, ◌≤◌, ◌≡◌, ◌≢◌, refl, sym, ap, subst, ◌∙◌, inl,
  inr, Bool, true, false, not, ◌||◌, Bool-cases, Option-cases, Option, none, some, [], ◌∷◌, Bytes,
  arith, tests, set, get_or, length, length-set, length-replicate, replicate, get_or-set_self,
  get_or-set_ne, ltb, not_ltb→le, ◌==◌, ==_iff,
}
use loco.Peer.Types.{PeerConnection, PieceBitfield}
use loco.Peer.Wire.{from_big_endian}
use loco.Peer.Bitfield.{
  mask, set_piece, has_piece, bitfield_length, with_bitfield, current_bitfield, update_bitfield,
  padding_clear, bitfield_applied,
}
use loco.Peer.Bitfield.Bits.{bit_and-bit_or, bit_or-lt, bit_and-padding, bit_and-zero}

get_or-lt : (bs : Bytes) (i : ℕ) → AllBytes bs → get_or bs i 0 < 256
get_or-lt [] i h = omega arith
get_or-lt (b ∷ bs) zero h = h.0
get_or-lt (b ∷ bs) (suc i) h = get_or-lt bs i h.1

set-AllBytes : (bs : Bytes) (i v : ℕ) → AllBytes bs → v < 256 → AllBytes (set bs i v)
set-AllBytes [] i v h k = tt
set-AllBytes (b ∷ bs) zero v h k = (k, h.1)
set-AllBytes (b ∷ bs) (suc i) v h k = (h.0, set-AllBytes bs i v h.1 k)

replicate-AllBytes : (n : ℕ) → AllBytes (replicate n 0)
replicate-AllBytes zero = tt
replicate-AllBytes (suc n) = (omega arith, replicate-AllBytes n)

get_or-replicate : (n i : ℕ) → get_or (replicate {A = ℕ} n 0) i 0 ≡ 0
get_or-replicate zero i = refl
get_or-replicate (suc n) zero = refl
get_or-replicate (suc n) (suc i) = get_or-replicate n i

get_or_outside : (bs : Bytes) (i : ℕ) → length bs ≤ i → get_or bs i 0 ≡ 0
get_or_outside [] i h = refl
get_or_outside (b ∷ bs) zero h = absurd (omega arith)
get_or_outside (b ∷ bs) (suc i) h = get_or_outside bs i (omega arith)

index_same : (i j : ℕ) → i / 8 ≡ j / 8 → (i % 8 == j % 8) ≡ (i == j)
index_same i j e = ground arith

index_other : (i j : ℕ) → i / 8 ≢ j / 8 → (i == j) ≡ false
index_other i j e = ground arith

-- Setting the bit of a piece, inside bytes below 256, sets it for that piece and no other.
pub has_piece-set_piece :
    (bs : Bytes) (i j : ℕ)
    → AllBytes bs
    → i / 8 < length bs
    → has_piece (set_piece bs i) j ≡ (i == j || has_piece bs j)
unfolding has_piece set_piece
has_piece-set_piece bs i j all h = elim (Bool-cases (i / 8 == j / 8)) [
  | inl same ↦
      let e : i / 8 ≡ j / 8 = (==_iff _ _).0 same in
      rw
        (
          ← e,
          get_or-set_self bs (i / 8) _ 0 h,
          bit_and-bit_or (get_or bs (i / 8) 0) (i % 8) (j % 8) (get_or-lt bs (i / 8) all)
              (omega arith) (omega arith),
        )
        (ap (λ x. x || not (bit_and (get_or bs (i / 8) 0) (mask (j % 8)) == 0)) (index_same i j e))
  | inr other ↦
      let e : i / 8 ≢ j / 8 = λ z. ground arith in
      rw (get_or-set_ne bs (i / 8) (j / 8) _ 0 e, index_other i j e)
]

-- A bitfield for so many pieces: its length, and no bit set behind the last piece.
pub record IsBitfield (piece_count : ℕ) (bs : Bytes) : Type 0 where
  pub sized : length bs ≡ bitfield_length piece_count
  pub bytes : AllBytes bs
  pub spare : (j : ℕ) → piece_count ≤ j → has_piece bs j ≡ false

-- A connection has no bitfield yet, or one for the torrent's pieces.
abbrev pub IsKnown : ℕ → Option Bytes → ℕ → Type 0
IsKnown piece_count none n = n ≡ 0
IsKnown piece_count (some bs) n = (n ≡ bitfield_length piece_count) × IsBitfield piece_count bs

-- Whether the peer is known to have a piece.
abbrev pub peer_has : Option Bytes → ℕ → Bool
peer_has none j = false
peer_has (some bs) j = has_piece bs j

set_piece-IsBitfield :
    (piece_count : ℕ) (bs : Bytes) (i : ℕ)
    → i < piece_count
    → IsBitfield piece_count bs
    → IsBitfield piece_count (set_piece bs i)
unfolding set_piece
set_piece-IsBitfield n bs i h b = record {
  sized = length-set bs (i / 8) _ ∙ b.sized;
  bytes =
      set-AllBytes bs (i / 8) _ b.bytes
        (bit_or-lt _ (i % 8) (get_or-lt bs (i / 8) b.bytes) (omega arith));
  spare = λ j k.
      has_piece-set_piece bs i j b.bytes (omega (arith, b.sized)) ∙ ground (arith, b.spare j k);
}

replicate-IsBitfield : (n : ℕ) → IsBitfield n (replicate (bitfield_length n) 0)
unfolding has_piece
replicate-IsBitfield n = record {
  sized = length-replicate (bitfield_length n) 0;
  bytes = replicate-AllBytes (bitfield_length n);
  spare =
      λ j k. rw (get_or-replicate (bitfield_length n) (j / 8)) (bit_and-zero (j % 8) (omega arith));
}

replicate_empty : (n j : ℕ) → has_piece (replicate n 0) j ≡ false
unfolding has_piece
replicate_empty n j = rw (get_or-replicate n (j / 8)) (bit_and-zero (j % 8) (omega arith))

-- The bitfield that `update_bitfield` starts from says what was known before.
current_bitfield_lem :
    (granted : Bool) (f : PieceBitfield) (n : ℕ) (bs : Bytes)
    → IsKnown n f.bytes f.length
    → current_bitfield granted f (bitfield_length n) ≡ some bs
    → IsBitfield n bs × ((j : ℕ) → has_piece bs j ≡ peer_has f.bytes j)
unfolding current_bitfield
current_bitfield_lem granted f n bs known e = go granted f.bytes f.length known e
  where
    go :
        (g : Bool) (o : Option Bytes) (len : ℕ)
        → IsKnown n o len
        → current_bitfield g (record { bytes = o; length = len }) (bitfield_length n) ≡ some bs
        → IsBitfield n bs × ((j : ℕ) → has_piece bs j ≡ peer_has o j)
    go true none len k e =
        let same : replicate (bitfield_length n) 0 ≡ bs = ground arith in
        (
          subst (IsBitfield n) same (replicate-IsBitfield n),
          λ j. subst (λ x. has_piece x j ≡ false) same (replicate_empty (bitfield_length n) j),
        )
    go false none len k e = absurd (ground arith)
    go g (some old) len k e =
        let same : old ≡ bs = ground arith in
        (subst (IsBitfield n) same k.1, λ j. ap (λ x. has_piece x j) (sym same))

-- The piece that a `have` message names.
abbrev pub named_piece : Bytes → ℕ
named_piece payload =
    from_big_endian (get_or payload 0 0) (get_or payload 1 0) (get_or payload 2 0)
      (get_or payload 3 0)

-- What an accepted `have` message changes: the named piece is one of the torrent's, it is known now
-- besides what was known before, and the bitfield keeps its shape.
pub record News (n : ℕ) (c c' : PeerConnection) (payload : Bytes) : Type 0 where
  pub in_range : named_piece payload < n
  pub known : IsKnown n c'.peer_piece_bitfield.bytes c'.peer_piece_bitfield.length
  pub learned :
      (j : ℕ)
      → peer_has c'.peer_piece_bitfield.bytes j
        ≡ (named_piece payload == j || peer_has c.peer_piece_bitfield.bytes j)
  pub choking : c'.peer_choking_us ≡ c.peer_choking_us
  pub interest : c'.we_are_interested ≡ c.we_are_interested

-- An accepted `have` message, for a connection with no bitfield or one for the torrent's pieces, adds
-- the piece that it names, one of the torrent's, to what is known of the peer, and nothing else.
pub update_bitfield-News :
    (granted : Bool) (c c' : PeerConnection) (payload : Bytes) (payload_length n : ℕ)
    → IsKnown n c.peer_piece_bitfield.bytes c.peer_piece_bitfield.length
    → update_bitfield granted c payload payload_length n ≡ some c'
    → News n c c' payload
unfolding update_bitfield
update_bitfield-News granted c c' payload payload_length n known e =
    elim (Option-cases (current_bitfield granted c.peer_piece_bitfield (bitfield_length n))) [
      | inl z ↦ absurd (ground arith)
      | inr (bs, z) ↦
          let same : with_bitfield c (set_piece bs (named_piece payload)) (bitfield_length n) ≡ c' =
            ground arith in
          let inside : named_piece payload < n = ground arith in
          subst (λ d. News n c d payload) same
            (news bs inside (current_bitfield_lem granted c.peer_piece_bitfield n bs known z))
    ]
  where
    news :
        (bs : Bytes)
        → named_piece payload < n
        → IsBitfield n bs × ((j : ℕ) → has_piece bs j ≡ peer_has c.peer_piece_bitfield.bytes j)
        → News n c
            (with_bitfield c (set_piece bs (named_piece payload)) (bitfield_length n))
            payload
    news bs inside (b, before) = record {
      in_range = inside;
      known = (refl, set_piece-IsBitfield n bs (named_piece payload) inside b);
      learned = λ j.
          has_piece-set_piece bs (named_piece payload) j b.bytes (omega (arith, b.sized))
          ∙ ap (λ x. named_piece payload == j || x) (before j);
      choking = refl;
      interest = refl;
    }

padding-IsBitfield :
    (n : ℕ) (payload : Bytes)
    → AllBytes payload
    → length payload ≡ bitfield_length n
    → padding_clear payload (length payload) n ≡ true
    → IsBitfield n payload
unfolding padding_clear has_piece
padding-IsBitfield n payload all e clear = record {
  sized = e;
  bytes = all;
  spare = λ j h. spare_bit j h;
}
  where
    spare_bit : (j : ℕ) → n ≤ j → has_piece payload j ≡ false
    spare_bit j h = elim (Bool-cases (ltb (j / 8) (length payload))) [
      | inl inside ↦
          let last : length payload - 1 ≡ j / 8 = omega (tests, e) in
          let rest : n % 8 ≢ 0 = λ z. absurd (omega (tests, e)) in
          let part : (bit_and (2 ^ (8 - n % 8) - 1) (get_or payload (length payload - 1) 0) == 0)
              ≡ true =
            ground arith in
          bit_and-padding (get_or payload (j / 8) 0) (n % 8) (j % 8) (get_or-lt payload (j / 8) all)
            (omega arith) (omega arith) (omega (tests, e))
            (subst (λ k. (bit_and (2 ^ (8 - n % 8) - 1) (get_or payload k 0) == 0) ≡ true) last
              part)
      | inr outside ↦
          rw (get_or_outside payload (j / 8) (not_ltb→le _ _ outside))
            (bit_and-zero (j % 8) (omega arith))
    ]

-- An accepted `bitfield` message, of bytes below 256, comes before any other news, has the torrent's
-- size and no bit behind its last piece, and is what is known of the peer from then on.
pub bitfield_applied_lem :
    (granted : Bool) (c c' : PeerConnection) (payload : Bytes) (n : ℕ)
    → AllBytes payload
    → bitfield_applied granted c payload (length payload) n ≡ some c'
    → (c.peer_piece_bitfield.bytes ≡ none)
      × IsKnown n c'.peer_piece_bitfield.bytes c'.peer_piece_bitfield.length
      × (c'.peer_piece_bitfield.bytes ≡ some payload)
      × (c'.peer_choking_us ≡ c.peer_choking_us)
      × (c'.we_are_interested ≡ c.we_are_interested)
unfolding bitfield_applied
bitfield_applied_lem granted c c' payload n all e =
    let first : c.peer_piece_bitfield.bytes ≡ none = ground arith in
    let sized : length payload ≡ bitfield_length n = ground arith in
    let clear : padding_clear payload (length payload) n ≡ true = ground arith in
    let same : with_bitfield c payload (length payload) ≡ c' = ground arith in
    subst
      (λ d.
        (c.peer_piece_bitfield.bytes ≡ none)
        × IsKnown n d.peer_piece_bitfield.bytes d.peer_piece_bitfield.length
        × (d.peer_piece_bitfield.bytes ≡ some payload)
        × (d.peer_choking_us ≡ c.peer_choking_us)
        × (d.we_are_interested ≡ c.we_are_interested))
      same (first, (sized, padding-IsBitfield n payload all sized clear), refl, refl, refl)
