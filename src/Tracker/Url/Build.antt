-- ===== src/Tracker/Url/Build.antt =====
-- src/tracker.c: `build_tracker_url` as a whole, on a request that it can send.
use loco.Base.{
  ℕ, ◌+◌, ◌≤◌, ◌<◌, ◌≡◌, refl, ap, ◌∙◌, Bool, true, false, Option, some, [], ◌∷◌, ◌++◌, Bytes,
  arith, length, size_max, ltb, if◌then◌else◌, sym, inl, inr, Bool-cases, codes, ◌==◌,
}
use loco.Bencode.Types.{Segment}
use loco.Tracker.Url.{
  TrackerEvent, TrackerRequest, Texts, digits, event_text, event_parameter, parameters,
}
use loco.Tracker.Url.Write.{build_tracker_url}
use loco.Resources.{or_exit, acquire_or_exit, unless_exit, ◌>>=◌}
use loco.Tracker.Url.Decimal.{print_unsigned-fits}
use loco.Tracker.Url.Laws.{IsRequest, joined, separator, url_of, write_url_lem}

-- The texts of the fields: the numbers in base ten, the two identifiers as `curl_easy_escape` gives them.
abbrev texts_of : TrackerRequest → Bytes → Bytes → Bytes → Bool → Texts
texts_of r info_hash_encoded peer_id_encoded event_value has_event = record {
  info_hash = info_hash_encoded;
  peer_id = peer_id_encoded;
  port = digits 20 r.port [];
  uploaded = digits 20 r.uploaded [];
  downloaded = digits 20 r.downloaded [];
  left = digits 20 r.left [];
  compact = if r.compact then b'1' ∷ [] else b'0' ∷ [];
  event = event_value;
  has_event = has_event;
}

-- The fields are in the ranges of their types: uint16_t, and uint64_t three times.
pub record InRange (r : TrackerRequest) : Type 0 where
  pub port : r.port < 65536
  pub uploaded : r.uploaded < 18446744073709551616
  pub downloaded : r.downloaded < 18446744073709551616
  pub left : r.left < 18446744073709551616

without_event : (e : TrackerEvent) (text : Bytes) → event_text e ≡ some (text, false) → text ≡ []
without_event TrackerEvent.no_event text h = cc h
without_event TrackerEvent.started text h = cc h
without_event TrackerEvent.completed text h = cc h
without_event TrackerEvent.stopped text h = cc h
without_event (TrackerEvent.other n) text h = cc h

compact_digit : (c : Bool) → length {A = ℕ} (if c then b'1' ∷ [] else b'0' ∷ []) ≡ 1
compact_digit false = refl
compact_digit true = refl

build-texts_of :
    (malloc : ℕ → Option Bytes) (curl_easy_escape : Bytes → Option Bytes) (announce : Segment)
    (r : TrackerRequest) (info_hash_encoded peer_id_encoded event_value block : Bytes)
    (has_event : Bool)
    → InRange r
    → 1 ≤ length announce
    → curl_easy_escape r.info_hash ≡ some info_hash_encoded
    → curl_easy_escape r.peer_id ≡ some peer_id_encoded
    → event_text r.event ≡ some (event_value, has_event)
    → length (url_of announce (texts_of r info_hash_encoded peer_id_encoded event_value has_event))
        + 1
      ≤ size_max
    → malloc (
        length
          (url_of announce (texts_of r info_hash_encoded peer_id_encoded event_value has_event))
        + 1)
      ≡ some block
    → length block
      ≡ length
          (url_of announce (texts_of r info_hash_encoded peer_id_encoded event_value has_event))
        + 1
    → (build_tracker_url malloc curl_easy_escape true announce r).0
      ≡ some (
          url_of announce (texts_of r info_hash_encoded peer_id_encoded event_value has_event)
          ++ 0 ∷ [])
unfolding build_tracker_url or_exit acquire_or_exit unless_exit ◌>>=◌
build-texts_of malloc curl_easy_escape announce r ih pid ev block has range address hashed named
      known small granted sized =
    let x = texts_of r ih pid ev has in
    let some_address : ltb 0 (length announce) ≡ true = ground (arith, address) in
    let port = print_unsigned-fits 5 r.port (omega (arith, range.port)) (omega arith) in
    let uploaded =
      print_unsigned-fits 20 r.uploaded (omega (arith, range.uploaded)) (omega arith) in
    let downloaded =
      print_unsigned-fits 20 r.downloaded (omega (arith, range.downloaded)) (omega arith) in
    let left = print_unsigned-fits 20 r.left (omega (arith, range.left)) (omega arith) in
    rw (some_address, hashed, named, port, uploaded, downloaded, left, known)
      (write_url_lem malloc announce x block request small granted sized)
  where
    request : IsRequest (texts_of r ih pid ev has)
    request = record {
      digit = compact_digit r.compact;
      no_event = λ e. without_event r.event ev (known ∙ ap (λ b. some (ev, b)) e);
    }

-- Between the address and the query: the address may have a query of its own.
abbrev address_separator : Segment → ℕ
address_separator [] = b'?'
address_separator (b ∷ bs) = if b == b'?' then b'&' else address_separator bs

-- The end of the query of an event that a tracker knows.
abbrev event_query : TrackerEvent → Bytes
event_query TrackerEvent.no_event = []
event_query TrackerEvent.started = codes "&event=started"
event_query TrackerEvent.completed = codes "&event=completed"
event_query TrackerEvent.stopped = codes "&event=stopped"
event_query (TrackerEvent.other n) = []

abbrev IsKnown : TrackerEvent → Type 0
IsKnown (TrackerEvent.other n) = ⊥
IsKnown _ = Unit {0}

-- The query of a request, in the order in which trackers document it.
abbrev query_of : TrackerRequest → Bytes → Bytes → Bytes
query_of r info_hash peer_id =
    codes "info_hash="
    ++ (info_hash
        ++ (codes "&peer_id="
            ++ (peer_id
                ++ (codes "&port="
                    ++ (digits 20 r.port []
                        ++ (codes "&uploaded="
                            ++ (digits 20 r.uploaded []
                                ++ (codes "&downloaded="
                                    ++ (digits 20 r.downloaded []
                                        ++ (codes "&left="
                                            ++ (digits 20 r.left []
                                                ++ (codes "&compact="
                                                    ++ ((if r.compact then codes "1" else codes "0")
                                                        ++ event_query r.event)))))))))))))

abbrev pub announce_url : Segment → TrackerRequest → Bytes → Bytes → Bytes
announce_url announce r info_hash peer_id =
    announce ++ address_separator announce ∷ query_of r info_hash peer_id

separator_lem : (announce : Segment) → separator announce ≡ address_separator announce
separator_lem [] = refl
separator_lem (b ∷ bs) = elim (Bool-cases (b == b'?')) [
  | inl e ↦ rw e refl
  | inr e ↦ rw e (separator_lem bs)
]

-- The event's text, with the parameter that is written for it.
record EventText (r : TrackerRequest) (info_hash peer_id : Bytes) (e : TrackerEvent) : Type 0 where
  text : Bytes
  has : Bool
  known : event_text e ≡ some (text, has)
  written : joined (event_parameter (texts_of r info_hash peer_id text has)) ≡ event_query e

event_text_lem :
    (r : TrackerRequest) (info_hash peer_id : Bytes) (e : TrackerEvent)
    → IsKnown e
    → EventText r info_hash peer_id e
event_text_lem r ih pid TrackerEvent.no_event h = record {
  text = [];
  has = false;
  known = refl;
  written = refl;
}
event_text_lem r ih pid TrackerEvent.started h = record {
  text = codes "started";
  has = true;
  known = refl;
  written = refl;
}
event_text_lem r ih pid TrackerEvent.completed h = record {
  text = codes "completed";
  has = true;
  known = refl;
  written = refl;
}
event_text_lem r ih pid TrackerEvent.stopped h = record {
  text = codes "stopped";
  has = true;
  known = refl;
  written = refl;
}
event_text_lem r ih pid (TrackerEvent.other n) h = absurd h

joined-query_of :
    (r : TrackerRequest) (ih pid : Bytes) (x : EventText r ih pid r.event)
    → joined (parameters (texts_of r ih pid x.text x.has)) ≡ query_of r ih pid
joined-query_of r ih pid x =
    ap
      (λ z.
        codes "info_hash="
        ++ (ih
            ++ (codes "&peer_id="
                ++ (pid
                    ++ (codes "&port="
                        ++ (digits 20 r.port []
                            ++ (codes "&uploaded="
                                ++ (digits 20 r.uploaded []
                                    ++ (codes "&downloaded="
                                        ++ (digits 20 r.downloaded []
                                            ++ (codes "&left="
                                                ++ (digits 20 r.left []
                                                    ++ (codes "&compact="
                                                        ++ ((if r.compact
                                                            then codes "1"
                                                            else codes "0")
                                                            ++ z))))))))))))))
      x.written

-- On a request whose event is known and whose numbers are in the ranges of their types, with libcurl's
-- two encodings and a block of the size asked for, `build_tracker_url` gives the address, `?` or `&`, and
-- each field of the request behind its own name, with a closing 0.
pub build_tracker_url_lem :
    (malloc : ℕ → Option Bytes) (curl_easy_escape : Bytes → Option Bytes) (announce : Segment)
    (r : TrackerRequest) (info_hash_encoded peer_id_encoded block : Bytes)
    → InRange r
    → 1 ≤ length announce
    → curl_easy_escape r.info_hash ≡ some info_hash_encoded
    → curl_easy_escape r.peer_id ≡ some peer_id_encoded
    → IsKnown r.event
    → length (announce_url announce r info_hash_encoded peer_id_encoded) + 1 ≤ size_max
    → malloc (length (announce_url announce r info_hash_encoded peer_id_encoded) + 1) ≡ some block
    → length block ≡ length (announce_url announce r info_hash_encoded peer_id_encoded) + 1
    → (build_tracker_url malloc curl_easy_escape true announce r).0
      ≡ some (announce_url announce r info_hash_encoded peer_id_encoded ++ 0 ∷ [])
build_tracker_url_lem malloc curl_easy_escape announce r ih pid block range address hashed named
      known small granted sized =
    let x = event_text_lem r ih pid r.event known in
    let same : url_of announce (texts_of r ih pid x.text x.has) ≡ announce_url announce r ih pid =
      rw (separator_lem announce, joined-query_of r ih pid x) refl in
    let long = ap length same in
    build-texts_of malloc curl_easy_escape announce r ih pid x.text block x.has range address hashed
      named x.known (omega (arith, long, small)) (ap (λ n. malloc (n + 1)) long ∙ granted)
      (sized ∙ ap (λ n. n + 1) (sym long))
    ∙ ap (λ u. some (u ++ 0 ∷ [])) same
