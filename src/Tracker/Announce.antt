-- ===== src/Tracker/Announce.antt =====
-- src/tracker.c: `tracker_announce`, and the callback that collects the answer of the tracker.
pub mod Chunks
pub mod Laws
pub mod Runs
pub mod Unwinding
pub mod Whole
use loco.Base.{
  not, ℕ, ◌+◌, ◌-◌, ◌*◌, ◌%◌, ◌^◌, Bool, true, false, ◌&&◌, Option, none, some, List, [], ◌∷◌,
  Bytes, copy_at, length, take, size_max, ltb, ◌==◌, if◌then◌else◌,
}
use loco.Bencode.Types.{Segment}
use loco.Tracker.Response.{ResponseBuffer}
use loco.Files.{when}
use loco.Resources.{
  Resource, response_data, curl_handle, url_block, Program, ◌>>=◌, ◌>>◌, acquire_or_exit,
  unless_exit, or_release, acquiring, releasing,
}
use loco.Tracker.Url.{TrackerRequest}
use loco.Tracker.Url.Write.{build_tracker_url}

-- What libcurl does at a URL: it hands the chunks of the body to the callback, as long as the callback
-- takes each of them whole; then the transfer ends, well or not, and its status code can be read or not.
pub record Transfer : Type 0 where
  pub chunks : List Bytes
  pub performed : Bool
  pub info : Bool
  pub status_code : ℕ

-- libcurl: whether its calls return a handle or CURLE_OK, and what they give. `curl` is the handle of
-- `tracker_announce`, `url_curl` that of `build_tracker_url`.
pub record Curl : Type 0 where
  pub curl : Bool
  pub write_function : Bool
  pub write_data : Bool
  pub url_curl : Bool
  pub curl_easy_escape : Bytes → Option Bytes
  pub set_url : Bytes → Bool
  pub curl_easy_perform : Bytes → Transfer

-- A block that may be null: free(NULL) does nothing.
abbrev pub data_held : Option Bytes → List Resource
data_held none = []
data_held (some bs) = response_data ∷ []

-- `temp_response` before the transfer.
abbrev pub empty_response : ResponseBuffer
empty_response = record { bytes = none; length = 0 }

-- `realloc` of the C library gives a block in place of another, or none.
module _ (realloc : Option Bytes → ℕ → Option Bytes) where
  -- The chunk behind what the buffer holds, in the block that realloc gives.
  abbrev pub put_chunk : Bytes → ℕ → ResponseBuffer → Option Bytes → ℕ × ResponseBuffer
  put_chunk chunk chunk_size response none = (0, response)
  put_chunk chunk chunk_size response (some temp_buffer) = (
    chunk_size,
    record {
      bytes = some (copy_at temp_buffer response.length (take chunk_size chunk));
      length = response.length + chunk_size;
    },
  )

  -- The size that is returned, and the buffer after the call.
  unfoldable pub write_chunk_to_tracker_response_buffer :
      Bytes → ℕ → ℕ → ResponseBuffer → ℕ × ResponseBuffer
  write_chunk_to_tracker_response_buffer chunk size nmemb response =
      let chunk_size = size * nmemb % 2 ^ 64 in
      if ltb (size_max - chunk_size) response.length
      then (0, response)
      else put_chunk chunk chunk_size response
          (realloc response.bytes (response.length + chunk_size))

  -- libcurl, as documented: each chunk is handed on with the size 1, until less than it is taken.
  unfoldable pub deliver : List Bytes → ResponseBuffer → Bool × ResponseBuffer
  deliver [] response = (true, response)
  deliver (chunk ∷ chunks) response =
      let (taken, after) = write_chunk_to_tracker_response_buffer chunk 1 (length chunk) response in
      let rest = deliver chunks after in if taken == length chunk then rest else (false, after)

  -- From `curl_easy_perform` on. The callback leaves one block, or none.
  unfoldable pub perform : Transfer → Program ResponseBuffer
  perform transfer = do
    let (taken, temp_response) = deliver transfer.chunks empty_response
    response ← acquiring (data_held temp_response.bytes) temp_response
    unless_exit (curl_handle ∷ data_held response.bytes) (not (taken && transfer.performed))
    unless_exit (curl_handle ∷ data_held response.bytes)
        (not (transfer.info && transfer.status_code == 200))
    releasing (curl_handle ∷ []) response

  -- `malloc` gives a block of any bytes, or none.
  unfoldable pub tracker_announce :
      (ℕ → Option Bytes) → Curl → Segment → TrackerRequest → Program ResponseBuffer
  tracker_announce malloc curl announce request = do
    acquire_or_exit curl_handle [] (when curl.curl tt)
    unless_exit (curl_handle ∷ []) (not curl.write_function)
    unless_exit (curl_handle ∷ []) (not curl.write_data)
    tracker_url ←
        or_release (curl_handle ∷ [])
          (build_tracker_url malloc curl.curl_easy_escape curl.url_curl announce request)
    unless_exit (curl_handle ∷ url_block ∷ []) (not (curl.set_url tracker_url))
    releasing (url_block ∷ []) tt
    perform (curl.curl_easy_perform tracker_url)
