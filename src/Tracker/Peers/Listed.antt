-- ===== src/Tracker/Peers/Listed.antt =====
-- src/tracker.c: a list of dictionaries gives the peers whose `ip` and `port` can be used, in order.
use loco.Base.{
  ℕ, ◌/◌, ◌≤◌, ◌≡◌, refl, sym, ap, subst, ◌∙◌, inl, inr, pos, negsuc, true, false, Bool-cases,
  Option, Option-cases, none, some, List, [], ◌∷◌, Bytes, arith, length, size_max, same_bytes,
  same_bytes_iff, leb, if◌then◌else◌,
}
use loco.Bencode.Types.{
  Segment, Object, Value, Objects, Entries, integer, byte_string, list, dictionary, no_items, item,
  no_entries, entry, value, count_items, count_entries,
}
use loco.Bencode.Grammar.{SortedKeys}
use loco.Metadata.Lookup.{IsEntry, KeyBelow-ne, later-KeyBelow, later-SortedKeys}
use loco.Tracker.Peers.{
  Peer, peer_size, Found, ip_key, port_key, uint16_max, c_string, keep_port, keep_address, keep_ip,
  both, read_entry, entries_loop, add_item, items_loop, peers_extract_list,
}

-- The object of a key.
abbrev pub object_of : Entries → Segment → Option Object
object_of no_entries k = none
object_of (entry j x es) k = if same_bytes j k then some x else object_of es k

abbrev pub or_else {ℓ} : {A : Type ℓ} → Option A → Option A → Option A
or_else none b = b
or_else (some a) b = some a

-- A port that is an integer within 16 bits.
abbrev pub usable_port : Value → Option ℕ
usable_port (integer (pos n)) = if leb n uint16_max then some n else none
usable_port _ = none

abbrev pub held : {A : Type 0} → (Value → Option A) → Option Object → Option A
held f none = none
held f (some x) = f (value x)

abbrev pub peer_with : Option Bytes → Option ℕ → Option Peer
peer_with (some address) (some p) = some (record { ipv4_address = address; port = p })
peer_with _ _ = none

object_of-some :
    (es : Entries) (k : Segment) (x : Object) → object_of es k ≡ some x → IsEntry es k x
object_of-some no_entries k x e = cc
object_of-some (entry j y es) k x e = elim (Bool-cases (same_bytes j k)) [
  | inl same ↦ inl ((same_bytes_iff j k).0 same, ground (arith, e, same))
  | inr other ↦ inr (object_of-some es k x (ground (arith, e, other)))
]

-- In sorted entries no key comes twice.
object_of_behind :
    (j k : Segment) (y : Object) (es : Entries)
    → SortedKeys (entry j y es)
    → same_bytes j k ≡ true
    → object_of es k ≡ none
object_of_behind j k y es s same = elim (Option-cases (object_of es k)) [
  | inl e ↦ e
  | inr (x, e) ↦ absurd (
      KeyBelow-ne j k (later-KeyBelow j k y x es s (object_of-some es k x e))
        ((same_bytes_iff j k).0 same))
]

-- A dictionary with sorted keys that counts its entries, or a value of another type.
abbrev pub IsSortedValue : Value → Type 0
IsSortedValue (dictionary es n c) = SortedKeys es × (n ≡ count_entries es)
IsSortedValue _ = Unit {0}

abbrev pub AllSorted : Objects → Type 0
AllSorted no_items = Unit {0}
AllSorted (item x xs) = IsSortedValue (value x) × AllSorted xs

keep_port_fields :
    (f : Found) (v : Value)
    → ((keep_port f v).ip ≡ f.ip) × ((keep_port f v).port ≡ or_else (usable_port v) f.port)
keep_port_fields f (integer (pos n)) = ground arith
keep_port_fields f (integer (negsuc n)) = (refl, refl)
keep_port_fields f (byte_string s) = (refl, refl)
keep_port_fields f (list xs n c) = (refl, refl)
keep_port_fields f (dictionary es n c) = (refl, refl)

abbrev pub in_front : Option Peer → List Peer → List Peer
in_front none ps = ps
in_front (some p) ps = p ∷ ps

both-in_front :
    (a : Option Bytes) (p : Option ℕ) (ps : List Peer) → both a p ps ≡ in_front (peer_with a p) ps
both-in_front none none ps = refl
both-in_front none (some p) ps = refl
both-in_front (some a) none ps = refl
both-in_front (some a) (some p) ps = refl

or_else-none {ℓ} : {A : Type ℓ} (o : Option A) → or_else o none ≡ o
or_else-none none = refl
or_else-none (some a) = refl

module _ (inet_pton : Bytes → Option Bytes) where
  -- An address that is a string short enough and that `inet_pton` reads.
  abbrev pub usable_ip : Value → Option Bytes
  usable_ip (byte_string s) = if leb 16 (length s) then none else inet_pton (c_string s)
  usable_ip _ = none

  -- The peer of an item, by the objects of the two keys.
  abbrev pub peer_of : Value → Option Peer
  peer_of (dictionary es n c) =
      peer_with (held usable_ip (object_of es ip_key)) (held usable_port (object_of es port_key))
  peer_of _ = none

  -- The peers of the items that have one, in order.
  abbrev pub peers_of : Objects → List Peer
  peers_of no_items = []
  peers_of (item x xs) = in_front (peer_of (value x)) (peers_of xs)

  keep_address_fields :
      (f : Found) (o : Option Bytes)
      → ((keep_address inet_pton f o).ip ≡ or_else o f.ip)
        × ((keep_address inet_pton f o).port ≡ f.port)
  keep_address_fields f none = (refl, refl)
  keep_address_fields f (some a) = (refl, refl)

  keep_ip_fields :
      (f : Found) (v : Value)
      → ((keep_ip inet_pton f v).ip ≡ or_else (usable_ip v) f.ip)
        × ((keep_ip inet_pton f v).port ≡ f.port)
  keep_ip_fields f (integer i) = (refl, refl)
  keep_ip_fields f (list xs n c) = (refl, refl)
  keep_ip_fields f (dictionary es n c) = (refl, refl)
  keep_ip_fields f (byte_string t) = elim (Bool-cases (leb 16 (length t))) [
    | inl long ↦ rw long (refl, refl)
    | inr short ↦ rw short (keep_address_fields f (inet_pton (c_string t)))
  ]

  -- What an entry does to the address and to the port, by its key.
  read_entry-ip_here :
      (f : Found) (key : Segment) (x : Object)
      → same_bytes key ip_key ≡ true
      → (read_entry inet_pton f key x).ip ≡ or_else (usable_ip (value x)) f.ip
  unfolding read_entry
  read_entry-ip_here f key x same =
      let e : ip_key ≡ key = sym ((same_bytes_iff key ip_key).0 same) in
      subst (λ k. (read_entry inet_pton f k x).ip ≡ or_else (usable_ip (value x)) f.ip) e
        (keep_ip_fields f (value x)).0

  read_entry-port_here :
      (f : Found) (key : Segment) (x : Object)
      → same_bytes key port_key ≡ true
      → (read_entry inet_pton f key x).port ≡ or_else (usable_port (value x)) f.port
  unfolding read_entry
  read_entry-port_here f key x same =
      let e : port_key ≡ key = sym ((same_bytes_iff key port_key).0 same) in
      subst (λ k. (read_entry inet_pton f k x).port ≡ or_else (usable_port (value x)) f.port) e
        (keep_port_fields f (value x)).1

  read_entry-ip_other :
      (f : Found) (key : Segment) (x : Object)
      → same_bytes key ip_key ≡ false
      → (read_entry inet_pton f key x).ip ≡ f.ip
  unfolding read_entry
  read_entry-ip_other f key x other = ground (arith, (keep_port_fields f (value x)).0)

  read_entry-port_other :
      (f : Found) (key : Segment) (x : Object)
      → same_bytes key port_key ≡ false
      → (read_entry inet_pton f key x).port ≡ f.port
  unfolding read_entry
  read_entry-port_other f key x other = ground (arith, (keep_ip_fields f (value x)).1)

  entries_loop-ip :
      (es : Entries) (f : Found)
      → SortedKeys es
      → (entries_loop inet_pton (count_entries es) es f).ip
        ≡ or_else (held usable_ip (object_of es ip_key)) f.ip
  unfolding entries_loop
  entries_loop-ip no_entries f s = refl
  entries_loop-ip (entry key x es) f s =
      let rest = entries_loop-ip es (read_entry inet_pton f key x) (later-SortedKeys key x es s) in
      elim (Bool-cases (same_bytes key ip_key)) [
        | inl same ↦ rw same (
            rest
            ∙ ap (λ o. or_else (held usable_ip o) (read_entry inet_pton f key x).ip)
                (object_of_behind key ip_key x es s same)
            ∙ read_entry-ip_here f key x same)
        | inr other ↦ rw other (
            rest
            ∙ ap (or_else (held usable_ip (object_of es ip_key)))
                (read_entry-ip_other f key x other))
      ]

  entries_loop-port :
      (es : Entries) (f : Found)
      → SortedKeys es
      → (entries_loop inet_pton (count_entries es) es f).port
        ≡ or_else (held usable_port (object_of es port_key)) f.port
  unfolding entries_loop
  entries_loop-port no_entries f s = refl
  entries_loop-port (entry key x es) f s =
      let rest =
        entries_loop-port es (read_entry inet_pton f key x) (later-SortedKeys key x es s) in
      elim (Bool-cases (same_bytes key port_key)) [
        | inl same ↦ rw same (
            rest
            ∙ ap (λ o. or_else (held usable_port o) (read_entry inet_pton f key x).port)
                (object_of_behind key port_key x es s same)
            ∙ read_entry-port_here f key x same)
        | inr other ↦ rw other (
            rest
            ∙ ap (or_else (held usable_port (object_of es port_key)))
                (read_entry-port_other f key x other))
      ]

  dictionary-in_front :
      (es : Entries) (c : ℕ) (ps : List Peer)
      → SortedKeys es
      → add_item inet_pton (dictionary es (count_entries es) c) ps
        ≡ in_front (peer_of (dictionary es (count_entries es) c)) ps
  dictionary-in_front es c ps s =
      let nothing : Found = record { ip = none; port = none } in
      rw
        (
          entries_loop-ip es nothing s,
          entries_loop-port es nothing s,
          or_else-none (held usable_ip (object_of es ip_key)),
          or_else-none (held usable_port (object_of es port_key)),
        )
        (both-in_front (held usable_ip (object_of es ip_key))
          (held usable_port (object_of es port_key)) ps)

  item-in_front :
      (v : Value) (ps : List Peer)
      → IsSortedValue v
      → add_item inet_pton v ps ≡ in_front (peer_of v) ps
  item-in_front (integer i) ps h = refl
  item-in_front (byte_string t) ps h = refl
  item-in_front (list xs n c) ps h = refl
  item-in_front (dictionary es n c) ps (s, e) =
      subst
        (λ m. add_item inet_pton (dictionary es m c) ps ≡ in_front (peer_of (dictionary es m c)) ps)
        (sym e) (dictionary-in_front es c ps s)

  items_loop-peers_of :
      (xs : Objects) → AllSorted xs → items_loop inet_pton (count_items xs) xs ≡ peers_of xs
  unfolding items_loop
  items_loop-peers_of no_items h = refl
  items_loop-peers_of (item x xs) (h, hs) =
      item-in_front (value x) (items_loop inet_pton (count_items xs) xs) h
      ∙ ap (in_front (peer_of (value x))) (items_loop-peers_of xs hs)

  -- Where memory is granted, a list whose dictionaries have sorted keys and right counts, as the parser
  -- gives them, yields the peers whose `ip` and `port` can be used, in order; the count is the list's,
  -- and the peers fit in memory.
  pub peers_extract_list_lem :
      (xs : Objects)
      → AllSorted xs
      → count_items xs ≤ size_max / peer_size
      → peers_extract_list inet_pton true (count_items xs) xs ≡ some (peers_of xs)
  unfolding peers_extract_list
  peers_extract_list_lem no_items h fits = refl
  peers_extract_list_lem (item x xs) h fits =
      let whole : items_loop inet_pton (count_items (item x xs)) (item x xs)
          ≡ peers_of (item x xs) =
        items_loop-peers_of (item x xs) h in
      ground (arith, fits, whole)
