-- ===== src/Tracker/Url.antt =====
-- src/tracker.c: `build_tracker_url`, which writes the URL of an announce into a block of its exact
-- size.
pub mod Build
pub mod Decimal
pub mod Laws
pub mod Unwinding
pub mod Write
use loco.Base.{
  ℕ, zero, suc, ◌+◌, ◌-◌, ◌/◌, ◌%◌, Bool, true, false, not, ◌||◌, Option, none, some, List, [], ◌∷◌,
  ◌++◌, Bytes, codes, copy_at, set, length, take, size_max, ltb, leb, ◌==◌, if◌then◌else◌,
}
use loco.Bencode.Types.{Segment}

-- The values of `enum tracker_event`, and any other number.
pub data TrackerEvent : Type 0 where
  no_event started completed stopped : TrackerEvent
  other : ℕ → TrackerEvent

pub record TrackerRequest : Type 0 where
  pub info_hash : Bytes
  pub peer_id : Bytes
  pub port : ℕ
  pub uploaded : ℕ
  pub downloaded : ℕ
  pub left : ℕ
  pub compact : Bool
  pub event : TrackerEvent

infixl 5 ◌>>=◌
abbrev pub ◌>>=◌ {ℓ κ} : {A : Type ℓ} {B : Type κ} → Option A → (A → Option B) → Option B
none >>= f = none
some a >>= f = f a

-- The decimal digits of a number, in front of `text`; a uint64_t has at most 20.
unfoldable pub digits : ℕ → ℕ → Bytes → Bytes
digits zero n text = text
digits (suc f) n text =
    let rest = digits f (n / 10) ((b'0' + n % 10) ∷ text) in
    if ltb n 10 then (b'0' + n) ∷ text else rest

-- snprintf with the format of an unsigned number into a buffer of `size` bytes: none where the text
-- and its closing 0 do not fit.
unfoldable pub print_unsigned : ℕ → ℕ → Option Bytes
print_unsigned size n =
    let text = digits 20 n [] in if leb size (length text) then none else some text

-- `event_value`, and whether there is one; none is the refusal of another value.
abbrev pub event_text : TrackerEvent → Option (Bytes × Bool)
event_text TrackerEvent.no_event = some ([], false)
event_text TrackerEvent.started = some (codes "started", true)
event_text TrackerEvent.completed = some (codes "completed", true)
event_text TrackerEvent.stopped = some (codes "stopped", true)
event_text (TrackerEvent.other n) = none

abbrev pub static_text : Bool → Bytes
static_text false = codes "?info_hash=&peer_id=&port=&uploaded=&downloaded=&left=&compact=1"
static_text true = codes "?info_hash=&peer_id=&port=&uploaded=&downloaded=&left=&compact=1&event="

unfoldable pub safely_increased_url_length : ℕ → ℕ → Option ℕ
safely_increased_url_length url_length increasing_length =
    if ltb (size_max - increasing_length) url_length
    then none
    else some (url_length + increasing_length)

-- The chain of calls, left at the first that fails.
unfoldable pub increase_all : ℕ → List ℕ → Option ℕ
unfolding safely_increased_url_length
increase_all n [] = some n
increase_all n (k ∷ ks) = do m ← safely_increased_url_length n k; increase_all m ks

-- A false result leaves `position` alone; the block and the position otherwise.
unfoldable pub add_query_parameter_to_url : Bytes → ℕ → Bytes → Bytes → ℕ → Option (Bytes × ℕ)
add_query_parameter_to_url url capacity parameter_prefix parameter_value position =
    if ltb capacity position
    then none
    else if ltb (capacity - position) (length parameter_prefix)
    then none
    else if ltb (capacity - position - length parameter_prefix) (length parameter_value)
    then none
    else some (
      copy_at (copy_at url position parameter_prefix) (position + length parameter_prefix)
          parameter_value,
      position + length parameter_prefix + length parameter_value,
    )

-- The chain of calls, left at the first that fails.
unfoldable pub add_all : Bytes → ℕ → ℕ → List (Bytes × Bytes) → Option (Bytes × ℕ)
unfolding add_query_parameter_to_url
add_all url capacity position [] = some (url, position)
add_all url capacity position ((parameter_prefix, parameter_value) ∷ rest) = do
  (u, p) ← add_query_parameter_to_url url capacity parameter_prefix parameter_value position
  add_all u capacity p rest

-- memchr(bytes, '?', n) != NULL
abbrev pub has_query : Bytes → Bool
has_query [] = false
has_query (b ∷ bs) = b == b'?' || has_query bs

-- What a request is sent with: the texts of its fields.
pub record Texts : Type 0 where
  pub info_hash : Bytes
  pub peer_id : Bytes
  pub port : Bytes
  pub uploaded : Bytes
  pub downloaded : Bytes
  pub left : Bytes
  pub compact : Bytes
  pub event : Bytes
  pub has_event : Bool

abbrev pub event_parameter : Texts → List (Bytes × Bytes)
event_parameter x = if x.has_event then (codes "&event=", x.event) ∷ [] else []

abbrev pub parameters : Texts → List (Bytes × Bytes)
parameters x =
    (codes "info_hash=", x.info_hash)
    ∷ (codes "&peer_id=", x.peer_id)
    ∷ (codes "&port=", x.port)
    ∷ (codes "&uploaded=", x.uploaded)
    ∷ (codes "&downloaded=", x.downloaded)
    ∷ (codes "&left=", x.left)
    ∷ (codes "&compact=", x.compact)
    ∷ event_parameter x

abbrev pub increments : Segment → Texts → List ℕ
increments announce x =
    length announce
    ∷ length x.info_hash
    ∷ length x.peer_id
    ∷ length x.port
    ∷ length x.uploaded
    ∷ length x.downloaded
    ∷ length x.left
    ∷ length (static_text x.has_event)
    ∷ length x.event
    ∷ []
