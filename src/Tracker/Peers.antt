-- ===== src/Tracker/Peers.antt =====
-- src/tracker.c: the peers of a tracker's answer, from the compact form and from a list.
pub mod Compact
pub mod Listed
use loco.Base.{
  ℕ, zero, suc, ◌+◌, ◌*◌, ◌/◌, ◌%◌, ◌^◌, ℤ, pos, negsuc, Bool, true, false, not, ◌&&◌, Option, none,
  some, List, [], ◌∷◌, Bytes, length, get_or, take, drop, size_max, same_bytes, ltb, leb, ◌==◌,
  if◌then◌else◌,
}
use loco.Bencode.Types.{
  Segment, Object, Value, Objects, Entries, integer, byte_string, list, dictionary, no_items, item,
  no_entries, entry, value,
}

pub record Peer : Type 0 where
  pub ipv4_address : Bytes
  pub port : ℕ

-- sizeof(peer_t): four bytes and a uint16_t.
abbrev pub peer_size : ℕ
peer_size = 6

-- The port's bytes share no bit once the high one is shifted.
unfoldable pub parse_peer_from_segment : Segment → Option Peer
parse_peer_from_segment peer_segment =
    if length peer_segment == 6
    then some (record {
      ipv4_address = take 4 peer_segment;
      port = get_or peer_segment 4 0 * 2 ^ 8 + get_or peer_segment 5 0;
    })
    else none

unfoldable pub is_valid_peers_ipv4_list : Segment → Bool
is_valid_peers_ipv4_list peers_segment = length peers_segment % 6 == 0

abbrev pub put_before : Option Peer → Option (List Peer) → Option (List Peer)
put_before none rest = none
put_before (some p) none = none
put_before (some p) (some ps) = some (p ∷ ps)

-- The loop over `i`, with so many rounds left.
unfoldable pub compact_loop : ℕ → ℕ → Segment → Option (List Peer)
unfolding parse_peer_from_segment
compact_loop zero i peers_segment = some []
compact_loop (suc left) i peers_segment =
    put_before (parse_peer_from_segment (take 6 (drop (i * 6) peers_segment)))
      (compact_loop left (i + 1) peers_segment)

-- `granted` is whether malloc gives the memory.
unfoldable pub peers_extract_compact : Bool → Segment → Option (List Peer)
unfolding is_valid_peers_ipv4_list
peers_extract_compact granted peers_segment =
    let peer_count = length peers_segment / 6 in
    if not (is_valid_peers_ipv4_list peers_segment)
    then none
    else if peer_count == 0
    then some []
    else if ltb (size_max / peer_size) peer_count
    then none
    else if granted
    then compact_loop peer_count 0 peers_segment
    else none

abbrev pub ip_key : Segment
ip_key = b'i' ∷ b'p' ∷ []

abbrev pub port_key : Segment
port_key = b'p' ∷ b'o' ∷ b'r' ∷ b't' ∷ []

abbrev pub uint16_max : ℕ
uint16_max = 65535

-- The bytes before the first 0, which is what a C string holds.
abbrev pub c_string : Bytes → Bytes
c_string [] = []
c_string (b ∷ bs) = if b == 0 then [] else b ∷ c_string bs

-- `ip_found` and `port_found` with what was found.
pub record Found : Type 0 where
  pub ip : Option Bytes
  pub port : Option ℕ

abbrev pub keep_port : Found → Value → Found
keep_port f (integer (pos n)) = if leb n uint16_max then record f { port = some n } else f
keep_port f _ = f

abbrev pub both : Option Bytes → Option ℕ → List Peer → List Peer
both (some address) (some p) ps = record { ipv4_address = address; port = p } ∷ ps
both _ _ ps = ps

-- `inet_pton` of the C library on a C string: the four bytes of the address, none where it returns
-- anything but 1.
module _ (inet_pton : Bytes → Option Bytes) where
  abbrev pub keep_address : Found → Option Bytes → Found
  keep_address f none = f
  keep_address f (some address) = record f { ip = some address }

  abbrev pub keep_ip : Found → Value → Found
  keep_ip f (byte_string s) =
      if leb 16 (length s) then f else keep_address f (inet_pton (c_string s))
  keep_ip f _ = f

  -- One entry of a dictionary; a `continue` leaves it, and no key has both lengths.
  unfoldable pub read_entry : Found → Segment → Object → Found
  read_entry f key x =
      if length key == 2
      then (if same_bytes key ip_key then keep_ip f (value x) else f)
      else if length key == 4
      then (if same_bytes key port_key then keep_port f (value x) else f)
      else f

  -- The loop over the entries, of which so many are left.
  unfoldable pub entries_loop : ℕ → Entries → Found → Found
  unfolding read_entry
  entries_loop zero es f = f
  entries_loop (suc left) no_entries f = f
  entries_loop (suc left) (entry key x es) f = entries_loop left es (read_entry f key x)

  -- The peer that an item gives, in front of those of the items behind it.
  abbrev pub add_item : Value → List Peer → List Peer
  add_item (dictionary es count capacity) ps =
      let f = entries_loop count es (record { ip = none; port = none }) in both f.ip f.port ps
  add_item _ ps = ps

  -- The loop over the items, of which so many are left.
  unfoldable pub items_loop : ℕ → Objects → List Peer
  unfolding entries_loop
  items_loop zero xs = []
  items_loop (suc left) no_items = []
  items_loop (suc left) (item x xs) = add_item (value x) (items_loop left xs)

  unfoldable pub peers_extract_list : Bool → ℕ → Objects → Option (List Peer)
  unfolding items_loop
  peers_extract_list granted count items =
      if ltb (size_max / peer_size) count
      then none
      else if count == 0
      then some []
      else if granted
      then some (items_loop count items)
      else none
