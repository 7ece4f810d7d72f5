-- ===== src/Resources.antt =====
-- What src/main.c and its helpers hold of the system - files, memory - and give back: the calls that
-- acquire and release it, as a list of events beside a result.
pub mod Laws
pub mod Values
use loco.Base.{ℕ, Bool, true, false, Option, none, some, List, [], ◌∷◌, ◌++◌, ◌==◌, if◌then◌else◌}

-- The files that are opened, the blocks that are allocated, the context of a digest, the handles of libcurl
-- and the texts that it escapes.
pub data Resource : Type 0 where
  torrent_file file_buffer parsed_object digest_context response_data response_object peers
        output_file piece_buffer descriptor curl_handle url_curl_handle escaped_info_hash
        escaped_peer_id url_block :
      Resource

abbrev number : Resource → ℕ
number torrent_file = 0
number file_buffer = 1
number parsed_object = 2
number digest_context = 3
number response_data = 4
number response_object = 5
number peers = 6
number output_file = 7
number piece_buffer = 8
number descriptor = 9
number curl_handle = 10
number url_curl_handle = 11
number escaped_info_hash = 12
number escaped_peer_id = 13
number url_block = 14

pub data Event : Type 0 where
  acquired released : Resource → Event

-- A part of the program: its result, none where the program exits with the code 1, and its events.
abbrev pub Program : Type 0 → Type 0
Program A = Option A × List Event

abbrev pub continued : {A B : Type 0} → List Event → Option A → (A → Program B) → Program B
continued es none f = (none, es)
continued es (some a) f = ((f a).0, es ++ (f a).1)

infixl 5 ◌>>=◌ ◌>>◌
unfoldable pub ◌>>=◌ : {A B : Type 0} → Program A → (A → Program B) → Program B
m >>= f = continued m.1 m.0 f

abbrev pub ◌>>◌ : {B : Type 0} → Program (Unit {0}) → Program B → Program B
m >> k = m >>= λ _. k

abbrev pub all_released : List Resource → List Event
all_released [] = []
all_released (r ∷ rs) = released r ∷ all_released rs

-- The value, or an exit that releases what is listed.
unfoldable pub or_exit : {A : Type 0} → List Resource → Option A → Program A
or_exit cleanup none = (none, all_released cleanup)
or_exit cleanup (some a) = (some a, [])

-- The same, where the value comes with a resource.
unfoldable pub acquire_or_exit : {A : Type 0} → Resource → List Resource → Option A → Program A
acquire_or_exit r cleanup none = (none, all_released cleanup)
acquire_or_exit r cleanup (some a) = (some a, acquired r ∷ [])

unfoldable pub unless_exit : List Resource → Bool → Program (Unit {0})
unless_exit cleanup true = (none, all_released cleanup)
unless_exit cleanup false = (some tt, [])

-- Where a part exits, this is released behind it.
unfoldable pub or_release : {A : Type 0} → List Resource → Program A → Program A
or_release cleanup (none, es) = (none, es ++ all_released cleanup)
or_release cleanup (some a, es) = (some a, es)

abbrev pub all_acquired : List Resource → List Event
all_acquired [] = []
all_acquired (r ∷ rs) = acquired r ∷ all_acquired rs

-- The same as acquire_or_exit, with what is acquired given as a list.
unfoldable pub acquire_all_or_exit :
    {A : Type 0} → List Resource → List Resource → Option A → Program A
acquire_all_or_exit rs cleanup none = (none, all_released cleanup)
acquire_all_or_exit rs cleanup (some a) = (some a, all_acquired rs)

-- The result, with what is listed acquired.
unfoldable pub acquiring : {A : Type 0} → List Resource → A → Program A
acquiring rs a = (some a, all_acquired rs)

-- The result, behind the release of what is listed.
unfoldable pub releasing : {A : Type 0} → List Resource → A → Program A
releasing rs a = (some a, all_released rs)

abbrev in_front : Resource → Option (List Resource) → Option (List Resource)
in_front q none = none
in_front q (some rest) = some (q ∷ rest)

-- What is held after the events; none where something is released that is not held.
abbrev pub without : Resource → List Resource → Option (List Resource)
without r [] = none
without r (q ∷ qs) =
    if number r == number q
    then some qs
    else elim (without r qs) [ none ↦ none | some rest ↦ some (q ∷ rest) ]

abbrev after : Event → Option (List Resource) → Option (List Resource)
after e none = none
after (acquired r) (some held) = some (r ∷ held)
after (released r) (some held) = without r held

abbrev pub settle : List Event → Option (List Resource) → Option (List Resource)
settle [] held = held
settle (e ∷ es) held = settle es (after e held)
