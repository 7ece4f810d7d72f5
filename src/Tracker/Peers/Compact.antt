-- ===== src/Tracker/Peers/Compact.antt =====
-- src/tracker.c: the compact form is six bytes for each peer, and is read back as what was written.
use loco.Base.{
  length_zero, ℕ, zero, suc, ◌+◌, ◌*◌, ◌/◌, ◌%◌, ◌^◌, ◌≤◌, ◌<◌, ◌≡◌, ◌↔◌, refl, sym, ap, ap₂, subst,
  ◌∙◌, inl, inr, Bool-cases, true, Option, none, some, List, [], ◌∷◌, ◌++◌, Bytes, AllBytes,
  AllBytes-drop, AllBytes-take, arith, length, length-append, length-drop, take, drop, take-append,
  drop-append, take-append-drop, drop-drop, size_max, ◌==◌,
}
use loco.Bencode.Types.{Segment}
use loco.Tracker.Peers.{
  Peer, parse_peer_from_segment, put_before, compact_loop, peers_extract_compact,
}

-- An IPv4 address and a port, as six bytes in network order.
abbrev pub peer_bytes : Peer → Bytes
peer_bytes p = p.ipv4_address ++ (p.port / 2 ^ 8) ∷ (p.port % 2 ^ 8) ∷ []

abbrev pub peers_bytes : List Peer → Bytes
peers_bytes [] = []
peers_bytes (p ∷ ps) = peer_bytes p ++ peers_bytes ps

pub record IsPeer (p : Peer) : Type 0 where
  pub four : length p.ipv4_address ≡ 4
  pub bytes : AllBytes p.ipv4_address
  pub short : p.port < 2 ^ 16

abbrev pub AllPeers : List Peer → Type 0
AllPeers [] = Unit {0}
AllPeers (p ∷ ps) = IsPeer p × AllPeers ps

peer_bytes-IsPeer :
    (s : Segment) (p : Peer)
    → AllBytes s
    → parse_peer_from_segment s ≡ some p
    → (s ≡ peer_bytes p) × IsPeer p
unfolding parse_peer_from_segment
peer_bytes-IsPeer (a ∷ b ∷ c ∷ d ∷ h ∷ l ∷ []) p (ha, (hb, (hc, (hd, (hh, (hl, _)))))) e =
    let q : Peer = record { ipv4_address = a ∷ b ∷ c ∷ d ∷ []; port = h * 2 ^ 8 + l } in
    let same : q ≡ p = cc e in
    let high : h ≡ (h * 2 ^ 8 + l) / 2 ^ 8 = omega arith in
    let low : l ≡ (h * 2 ^ 8 + l) % 2 ^ 8 = omega arith in
    subst (λ (z : Peer). (a ∷ b ∷ c ∷ d ∷ h ∷ l ∷ [] ≡ peer_bytes z) × IsPeer z) same
      (
        cc (high, low),
        record { four = refl; bytes = (ha, (hb, (hc, (hd, tt)))); short = omega arith },
      )
peer_bytes-IsPeer s p all e = absurd (ground arith)

parse_address :
    (a : Bytes) (port : ℕ)
    → length a ≡ 4
    → parse_peer_from_segment (a ++ (port / 2 ^ 8) ∷ (port % 2 ^ 8) ∷ [])
      ≡ some (record { ipv4_address = a; port = port })
unfolding parse_peer_from_segment
parse_address (a ∷ b ∷ c ∷ d ∷ []) port h =
    let whole : port / 2 ^ 8 * 2 ^ 8 + port % 2 ^ 8 ≡ port = omega arith in rw whole
parse_address a port h = absurd (omega arith)

length-peer_bytes : (p : Peer) → IsPeer p → length (peer_bytes p) ≡ 6
length-peer_bytes p v =
    omega (arith, length-append p.ipv4_address ((p.port / 2 ^ 8) ∷ (p.port % 2 ^ 8) ∷ []), v.four)

length-peers_bytes : (ps : List Peer) → AllPeers ps → length (peers_bytes ps) ≡ length ps * 6
length-peers_bytes [] all = refl
length-peers_bytes (p ∷ ps) (v, all) = omega (
  arith,
  length-append (peer_bytes p) (peers_bytes ps),
  length-peer_bytes p v,
  length-peers_bytes ps all,
)

put_before-some :
    (o : Option Peer) (rest : Option (List Peer)) (ps : List Peer)
    → put_before o rest ≡ some ps
    → (p : Peer) × (qs : List Peer) × (o ≡ some p) × (rest ≡ some qs) × (p ∷ qs ≡ ps)
put_before-some none rest ps e = cc
put_before-some (some p) none ps e = cc
put_before-some (some p) (some qs) ps e = (p, qs, refl, refl, cc e)

-- The bytes of one peer, and those behind them.
behind : (i : ℕ) (s : Segment) → drop ((i + 1) * 6) s ≡ drop 6 (drop (i * 6) s)
behind i s = sym (drop-drop (i * 6) 6 ((i + 1) * 6) s (omega arith))

compact_loop-peers_bytes :
    (ps : List Peer) (i : ℕ) (s : Segment)
    → AllPeers ps
    → drop (i * 6) s ≡ peers_bytes ps
    → compact_loop (length ps) i s ≡ some ps
unfolding compact_loop
compact_loop-peers_bytes [] i s all e = refl
compact_loop-peers_bytes (p ∷ ps) i s (v, all) e =
    let six : 6 ≡ length (peer_bytes p) = sym (length-peer_bytes p v) in
    let first : take 6 (drop (i * 6) s) ≡ peer_bytes p =
      ap (take 6) e
      ∙ ap (λ n. take n (peer_bytes p ++ peers_bytes ps)) six
      ∙ take-append (peer_bytes p) (peers_bytes ps) in
    let others : drop ((i + 1) * 6) s ≡ peers_bytes ps =
      behind i s
      ∙ ap (drop 6) e
      ∙ ap (λ n. drop n (peer_bytes p ++ peers_bytes ps)) six
      ∙ drop-append (peer_bytes p) (peers_bytes ps) in
    rw (
      first,
      parse_address p.ipv4_address p.port v.four,
      compact_loop-peers_bytes ps (i + 1) s all others,
    )

compact_loop-some :
    (n i : ℕ) (s : Segment) (ps : List Peer)
    → AllBytes s
    → length (drop (i * 6) s) ≡ n * 6
    → compact_loop n i s ≡ some ps
    → (drop (i * 6) s ≡ peers_bytes ps) × AllPeers ps
unfolding compact_loop
compact_loop-some zero i s ps all h e =
    let same : [] ≡ ps = cc e in
    subst (λ (z : List Peer). (drop (i * 6) s ≡ peers_bytes z) × AllPeers z) same
      (length_zero (drop (i * 6) s) (omega (arith, h)), tt)
compact_loop-some (suc n) i s ps all h e =
    let (p, qs, parsed, looped, same) = put_before-some _ _ ps e in
    let (first, v) =
      peer_bytes-IsPeer _ p (AllBytes-take 6 (drop (i * 6) s) (AllBytes-drop (i * 6) s all))
        parsed in
    let (others, vs) =
      compact_loop-some n (i + 1) s qs all
        (omega (arith, ap length (behind i s), length-drop 6 (drop (i * 6) s), h)) looped in
    let whole : drop (i * 6) s ≡ peers_bytes (p ∷ qs) =
      sym (take-append-drop 6 (drop (i * 6) s)) ∙ ap₂ ◌++◌ first (sym (behind i s) ∙ others) in
    subst (λ (z : List Peer). (drop (i * 6) s ≡ peers_bytes z) × AllPeers z) same (whole, (v, vs))

no_peers : (ps : List Peer) → length ps ≡ 0 → ps ≡ []
no_peers [] h = refl
no_peers (p ∷ ps) h = absurd (omega arith)

-- Where memory is granted, the peers that a compact list of bytes gives are those that it spells, six
-- bytes for each: any other list of bytes is refused. The list is one that fits in memory.
pub peers_extract_compact_iff :
    (s : Segment) (ps : List Peer)
    → AllBytes s
    → length s ≤ size_max
    → (peers_extract_compact true s ≡ some ps) ↔ ((s ≡ peers_bytes ps) × AllPeers ps)
unfolding peers_extract_compact
peers_extract_compact_iff s ps all fits = (sound, complete)
  where
    sound : peers_extract_compact true s ≡ some ps → (s ≡ peers_bytes ps) × AllPeers ps
    sound e =
        let valid : (length s % 6 == 0) ≡ true = ground (arith, e) in
        elim (Bool-cases (length s / 6 == 0)) [
          | inl empty ↦
              let same : [] ≡ ps = ground (arith, e, valid, empty) in
              subst (λ (z : List Peer). (s ≡ peers_bytes z) × AllPeers z) same
                (length_zero s (ground (arith, valid, empty)), tt)
          | inr some_peers ↦
              compact_loop-some (length s / 6) 0 s ps all (ground (arith, valid))
                (ground (arith, e, valid, some_peers))
        ]

    complete : (s ≡ peers_bytes ps) × AllPeers ps → peers_extract_compact true s ≡ some ps
    complete (e, v) =
        let size : length s ≡ length ps * 6 = ap length e ∙ length-peers_bytes ps v in
        let looped : compact_loop (length s / 6) 0 s ≡ some ps =
          ap (λ n. compact_loop n 0 s) (omega (arith, size))
          ∙ compact_loop-peers_bytes ps 0 s v e in
        elim (Bool-cases (length s / 6 == 0)) [
          | inl empty ↦
              let none_left : ps ≡ [] = no_peers ps (ground (arith, size, empty)) in
              let nothing : some [] ≡ some ps = ap some (sym none_left) in
              ground (arith, size, empty, nothing)
          | inr some_peers ↦ ground (arith, size, fits, some_peers, looped)
        ]
