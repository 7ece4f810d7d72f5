-- ===== src/Tracker/Url/Write.antt =====
-- src/tracker.c: `build_tracker_url` as a whole, with what it acquires and gives back.
use loco.Base.{
  ℕ, ◌+◌, ◌-◌, Bool, not, Option, List, [], ◌∷◌, Bytes, copy_at, set, length, take, ltb, leb, ◌==◌,
  if◌then◌else◌,
}
use loco.Bencode.Types.{Segment}
use loco.Files.{when}
use loco.Resources.{
  Resource, url_curl_handle, escaped_info_hash, escaped_peer_id, url_block, Program, ◌>>=◌, ◌>>◌,
  or_exit, acquire_or_exit, unless_exit, releasing,
}
use loco.Tracker.Url.{
  TrackerRequest, Texts, print_unsigned, event_text, increase_all, increments, has_query, add_all,
  parameters,
}

-- What libcurl has given, in the order in which it is released.
abbrev escaping : List Resource
escaping = escaped_info_hash ∷ escaped_peer_id ∷ url_curl_handle ∷ []

-- The same with the block of the URL.
abbrev writing : List Resource
writing = escaped_info_hash ∷ escaped_peer_id ∷ url_curl_handle ∷ url_block ∷ []

-- `malloc` gives a block of any bytes, or none.
module _ (malloc : ℕ → Option Bytes) where
  -- The URL in its block, with the 0 that ends it.
  unfoldable pub write_url : Segment → Texts → Program Bytes
  write_url announce x = do
    url_capacity ← or_exit escaping (increase_all 1 (increments announce x))
    block ← acquire_or_exit url_block escaping (malloc url_capacity)
    let u0 = copy_at block 0 announce
    let position = length announce
    let separator = if has_query (take position u0) then b'&' else b'?'
    unless_exit writing (leb url_capacity position)
    (u1, p1) ←
        or_exit writing
          (add_all (set u0 position separator) url_capacity (position + 1) (parameters x))
    unless_exit writing (not (p1 == url_capacity - 1))
    releasing escaping (set u1 p1 0)

  -- `curl_easy_escape` of libcurl: the characters of the C string that it gives, or none; `curl` is
  -- whether `curl_easy_init` gives a handle.
  unfoldable pub build_tracker_url :
      (Bytes → Option Bytes) → Bool → Segment → TrackerRequest → Program Bytes
  build_tracker_url curl_easy_escape curl announce request = do
    unless_exit [] (not (ltb 0 (length announce)))
    acquire_or_exit url_curl_handle [] (when curl tt)
    info_hash_encoded ←
        acquire_or_exit escaped_info_hash (url_curl_handle ∷ [])
          (curl_easy_escape request.info_hash)
    peer_id_encoded ←
        acquire_or_exit escaped_peer_id (escaped_info_hash ∷ url_curl_handle ∷ [])
          (curl_easy_escape request.peer_id)
    port ← or_exit escaping (print_unsigned 6 request.port)
    uploaded ← or_exit escaping (print_unsigned 21 request.uploaded)
    downloaded ← or_exit escaping (print_unsigned 21 request.downloaded)
    left ← or_exit escaping (print_unsigned 21 request.left)
    (event_value, has_event) ← or_exit escaping (event_text request.event)
    write_url announce (record {
      info_hash = info_hash_encoded;
      peer_id = peer_id_encoded;
      port = port;
      uploaded = uploaded;
      downloaded = downloaded;
      left = left;
      compact = if request.compact then b'1' ∷ [] else b'0' ∷ [];
      event = event_value;
      has_event = has_event;
    })
