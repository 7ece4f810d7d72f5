-- ===== src/Tracker/Url/Laws.antt =====
-- src/tracker.c: the URL that is written is the one that is meant, and fills its block exactly.
use loco.Base.{
  length_zero, ℕ, ◌+◌, ◌-◌, ◌≤◌, ◌<◌, ◌≡◌, refl, sym, ap, subst, ◌∙◌, inl, inr, true, false,
  Bool-cases, Option, some, List, [], ◌∷◌, ◌++◌, append_assoc, append-nil, Bytes, arith, copy_at,
  copy_at-append, length-copy_at, set, length, length-append, length-take, take, drop, take-append,
  take-append-drop, size_max, ltb, leb, ◌==◌, ==_iff, if◌then◌else◌,
}
use loco.Bencode.Types.{Segment}
use loco.Tracker.Url.{
  Texts, static_text, safely_increased_url_length, increase_all, add_query_parameter_to_url,
  add_all, has_query, event_parameter, parameters, increments, ◌>>=◌,
}
use loco.Tracker.Url.Write.{write_url}
use loco.Resources.{releasing, or_exit, acquire_or_exit, unless_exit}
use loco.Resources

-- The block holds what was written, from its first byte to the position.
record Holds (capacity : ℕ) (written u : Bytes) (p : ℕ) : Type 0 where
  position : p ≡ length written
  beyond : Bytes
  split : u ≡ written ++ beyond
  whole : length u ≡ capacity

copy-Holds :
    (capacity : ℕ) (written u src : Bytes) (p : ℕ)
    → Holds capacity written u p
    → length written + length src ≤ capacity
    → Holds capacity (written ++ src) (copy_at u p src) (p + length src)
copy-Holds capacity written u src p h fits = record {
  position = omega (arith, h.position, length-append written src);
  beyond = drop (length src) h.beyond;
  split =
      ap (λ x. copy_at x p src)
        (h.split ∙ ap (λ x. written ++ x) (sym (take-append-drop (length src) h.beyond)))
      ∙ copy_at-append p written (take (length src) h.beyond) (drop (length src) h.beyond) src
          h.position room
      ∙ sym (append_assoc written src (drop (length src) h.beyond));
  whole = length-copy_at u p src ∙ h.whole;
}
  where
    room : length (take (length src) h.beyond) ≡ length src
    room = omega (
      arith,
      length-take (length src) h.beyond,
      ap length h.split,
      length-append written h.beyond,
      h.whole,
      fits,
    )

-- The parameters, one behind the other.
abbrev pub joined : List (Bytes × Bytes) → Bytes
joined [] = []
joined ((k, v) ∷ rest) = (k ++ v) ++ joined rest

added :
    (u k v : Bytes) (capacity p : ℕ)
    → p + length k + length v ≤ capacity
    → add_query_parameter_to_url u capacity k v p
      ≡ some (copy_at (copy_at u p k) (p + length k) v, p + length k + length v)
unfolding add_query_parameter_to_url
added u k v capacity p fits = ground arith

add_all-Holds :
    (capacity : ℕ) (ps : List (Bytes × Bytes)) (written u : Bytes) (p : ℕ)
    → Holds capacity written u p
    → length written + length (joined ps) ≤ capacity
    → (u' : Bytes) × (q : ℕ) × (add_all u capacity p ps ≡ some (u', q))
      × Holds capacity (written ++ joined ps) u' q
unfolding add_all
add_all-Holds capacity [] written u p h fits = (u, p, refl, rw append-nil h)
add_all-Holds capacity ((k, v) ∷ rest) written u p h fits =
    let sizes : length (joined ((k, v) ∷ rest)) ≡ length k + length v + length (joined rest) =
      omega (arith, length-append (k ++ v) (joined rest), length-append k v) in
    let h1 = copy-Holds capacity written u k p h (omega (arith, sizes, fits)) in
    let h2 =
      copy-Holds capacity (written ++ k) (copy_at u p k) v (p + length k) h1
        (omega (arith, sizes, fits, length-append written k)) in
    let regroup : (written ++ k) ++ v ≡ written ++ (k ++ v) = append_assoc written k v in
    let (u', q, e, h3) =
      add_all-Holds capacity rest (written ++ (k ++ v)) _ (p + length k + length v)
        (subst
          (λ w.
            Holds capacity w (copy_at (copy_at u p k) (p + length k) v) (p + length k + length v))
          regroup h2)
        (omega (arith, sizes, fits, length-append written (k ++ v), length-append k v)) in
    (
      u',
      q,
      ap (λ o. o >>= λ (x : Bytes × ℕ). add_all x.0 capacity x.1 rest)
            (added u k v capacity p (omega (arith, sizes, fits, h.position)))
          ∙ e,
      subst (λ w. Holds capacity w u' q) (append_assoc written (k ++ v) (joined rest)) h3,
    )

abbrev pub total : List ℕ → ℕ
total [] = 0
total (k ∷ ks) = k + total ks

increase_all-total :
    (n : ℕ) (ks : List ℕ) → n + total ks ≤ size_max → increase_all n ks ≡ some (n + total ks)
unfolding increase_all safely_increased_url_length
increase_all-total n [] h = ap some (omega arith)
increase_all-total n (k ∷ ks) h =
    let fits : ltb (size_max - k) n ≡ false = ground (arith, h) in
    rw fits (increase_all-total (n + k) ks (omega (arith, h)) ∙ ap some (omega arith))

-- The character between the address and the first parameter.
abbrev pub separator : Segment → ℕ
separator announce = if has_query announce then b'&' else b'?'

-- The address, and the parameters behind it.
abbrev pub url_of : Segment → Texts → Bytes
url_of announce x = announce ++ separator announce ∷ joined (parameters x)

-- The texts that a request has: `compact` is one digit, and without an event its text is empty.
pub record IsRequest (x : Texts) : Type 0 where
  pub digit : length x.compact ≡ 1
  pub no_event : x.has_event ≡ false → x.event ≡ []

abbrev sizes : List (Bytes × Bytes) → ℕ
sizes [] = 0
sizes ((k, v) ∷ rest) = length k + length v + sizes rest

length-joined : (ps : List (Bytes × Bytes)) → length (joined ps) ≡ sizes ps
length-joined [] = refl
length-joined ((k, v) ∷ rest) =
    omega (arith, length-append (k ++ v) (joined rest), length-append k v, length-joined rest)

event_size :
    (x : Texts)
    → IsRequest x
    → 64 + sizes (event_parameter x) ≡ length (static_text x.has_event) + length x.event
event_size x v = elim (Bool-cases x.has_event) [
  | inl yes_event ↦ rw yes_event (omega arith)
  | inr no_event ↦ rw no_event (omega (arith, ap length (v.no_event no_event)))
]

-- The capacity that is added up is the room that the URL takes.
length-url_of :
    (announce : Segment) (x : Texts)
    → IsRequest x
    → length (url_of announce x) ≡ total (increments announce x)
length-url_of announce x v = omega (
  arith,
  length-append announce (separator announce ∷ joined (parameters x)),
  length-joined (parameters x),
  event_size x v,
  v.digit,
)

separator-Holds :
    (capacity : ℕ) (announce u : Bytes) (p : ℕ)
    → Holds capacity announce u p
    → length announce < capacity
    → Holds capacity
        (announce ++ separator announce ∷ [])
        (set u p (if has_query (take p u) then b'&' else b'?'))
        (p + 1)
separator-Holds capacity announce u p h fits =
    let read : take p u ≡ announce =
      ap (λ n. take n u) h.position
      ∙ ap (take (length announce)) h.split
      ∙ take-append announce h.beyond in
    rw read (copy-Holds capacity announce u (separator announce ∷ []) p h (omega (arith, fits)))

ended :
    (capacity : ℕ) (written u : Bytes) (p : ℕ)
    → Holds capacity written u p
    → capacity ≡ length written + 1
    → set u p 0 ≡ written ++ 0 ∷ []
ended capacity written u p h size =
    let h' = copy-Holds capacity written u (0 ∷ []) p h (omega (arith, size)) in
    let none_left = length_zero h'.beyond (
      omega (
        arith,
        ap length h'.split,
        h'.whole,
        size,
        length-append (written ++ 0 ∷ []) h'.beyond,
        length-append written (0 ∷ []),
      )) in
    h'.split ∙ ap (λ b. (written ++ 0 ∷ []) ++ b) none_left ∙ append-nil (written ++ 0 ∷ [])

-- `write_url` writes the URL and its closing 0, and they fill the block that it asks for; none of its
-- tests fails. The block is granted, and the lengths add up within size_t.
pub write_url_lem :
    (malloc : ℕ → Option Bytes) (announce : Segment) (x : Texts) (block : Bytes)
    → IsRequest x
    → length (url_of announce x) + 1 ≤ size_max
    → malloc (length (url_of announce x) + 1) ≡ some block
    → length block ≡ length (url_of announce x) + 1
    → (write_url malloc announce x).0 ≡ some (url_of announce x ++ 0 ∷ [])
unfolding write_url releasing or_exit acquire_or_exit unless_exit Resources.◌>>=◌
write_url_lem malloc announce x block v small granted sized =
    let fits = length-url_of announce x v in
    let long : length (url_of announce x)
        ≡ length announce + length (separator announce ∷ joined (parameters x)) =
      length-append announce (separator announce ∷ joined (parameters x)) in
    let capacity : 1 + total (increments announce x) ≡ length (url_of announce x) + 1 =
      omega (arith, fits) in
    let asked = increase_all-total 1 (increments announce x) (omega (arith, fits, small)) in
    let started : Holds (length (url_of announce x) + 1) [] block 0 = record {
      position = refl;
      beyond = block;
      split = refl;
      whole = sized;
    } in
    let behind_none : 0 + length announce ≡ length announce = omega arith in
    let h0 =
      subst (λ n. Holds (length (url_of announce x) + 1) announce (copy_at block 0 announce) n)
        behind_none
        (copy-Holds (length (url_of announce x) + 1) [] block announce 0 started
          (omega (arith, long))) in
    let h1 =
      separator-Holds _ announce (copy_at block 0 announce) (length announce) h0
        (omega (arith, long)) in
    let (u, p, added_all, h2) =
      add_all-Holds _ (parameters x) (announce ++ separator announce ∷ []) _ _ h1
        (omega (arith, long, length-append announce (separator announce ∷ []))) in
    let whole_url : (announce ++ separator announce ∷ []) ++ joined (parameters x)
        ≡ url_of announce x =
      append_assoc announce (separator announce ∷ []) (joined (parameters x)) in
    let in_front : leb (length (url_of announce x) + 1) (length announce) ≡ false =
      ground (arith, long) in
    let at_end : p == length (url_of announce x) + 1 - 1 ≡ true =
      (==_iff p (length (url_of announce x) + 1 - 1)).1
        (omega (arith, h2.position, ap length whole_url)) in
    rw (asked, capacity, granted)
      (rw in_front (
        rw (added_all, at_end)
          (ap some (
            ended _ _ u p h2 (omega (arith, ap length whole_url))
            ∙ ap (λ w. w ++ 0 ∷ []) whole_url))))
