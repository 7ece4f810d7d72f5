-- ===== src/Tracker/Announce/Runs.antt =====
-- An announce whose answer comes in two chunks, and what the theorems say of it.
use loco.Base.{
  ℕ, zero, suc, ◌≤◌, ◌≡◌, ◌↔◌, refl, sym, ap, ◌∙◌, inr, true, Option, none, some, [], ◌∷◌, ◌++◌,
  Bytes, arith, codes, length, length-append, length-take, take, replicate,
}
use loco.Bencode.Types.{DataType, Object, object, dictionary, no_entries, value, type_of}
use loco.Bencode.Action.{ok}
use loco.Bencode.Cursor.{consume_current_byte, is_valid_parser, bencode_parser_init}
use loco.Bencode.Containers.{dict_loop, parse_bencode_dict}
use loco.Bencode.Grammar.{Encodes}
use loco.Bencode.Parser.{parse_object, parse_bencode_buffer}
use loco.Tracker.Response.{ResponseBuffer, tracker_response_parse}
use loco.Tracker.Response.Laws.{buffer_of}
use loco.Tracker.Runs.{request, address, some_block, build_run}
use loco.Resources.{◌>>=◌, acquire_or_exit, unless_exit, or_release, acquiring, releasing}
use loco.Tracker.Announce.{
  Curl, empty_response, write_chunk_to_tracker_response_buffer, deliver, perform, tracker_announce,
}
use loco.Tracker.Announce.Chunks.{Reallocates, IsBody, body}
use loco.Tracker.Announce.Laws.{Announced, tracker_announce_iff}
use loco.Tracker.Announce.Whole.{deliver-taken, tracker_announce-Encodes}

abbrev bytes_of : Option Bytes → Bytes
bytes_of none = []
bytes_of (some bs) = bs

-- Blocks of any size, with zeros behind the old block.
abbrev grow : Option Bytes → ℕ → Option Bytes
grow old n = some (take n (bytes_of old ++ replicate n 0))

length-replicate : (n b : ℕ) → length (replicate n b) ≡ n
length-replicate zero b = refl
length-replicate (suc n) b = omega (arith, length-replicate n b)

kept_in_front :
    (old rest : Bytes) (n : ℕ) → length old ≤ n → take (length old) (take n (old ++ rest)) ≡ old
kept_in_front [] rest n h = refl
kept_in_front (b ∷ old) rest zero h = absurd (omega (arith, h))
kept_in_front (b ∷ old) rest (suc n) h =
    ap (λ t. b ∷ t) (kept_in_front old rest n (omega (arith, h)))

grow-Reallocates : Reallocates grow
grow-Reallocates = record {
  sized = λ old n block e.
      let same : take n (bytes_of old ++ replicate n 0) ≡ block = ground (arith, e) in
      omega (
        arith,
        ap length same,
        length-take n (bytes_of old ++ replicate n 0),
        length-append (bytes_of old) (replicate n 0),
        length-replicate n 0,
      );
  kept = λ old n block e fits.
      let same : take n (old ++ replicate n 0) ≡ block = ground (arith, e) in
      ap (take (length old)) (sym same) ∙ kept_in_front old (replicate n 0) n fits;
}

abbrev curl : Curl
curl = record {
  curl = true;
  write_function = true;
  write_data = true;
  url_curl = true;
  curl_easy_escape = some;
  set_url = λ url. true;
  curl_easy_perform = λ url. record {
    chunks = codes "d" ∷ codes "e" ∷ [];
    performed = true;
    info = true;
    status_code = 200;
  };
}

abbrev empty_dictionary : Object
empty_dictionary = object (dictionary no_entries 0 0) 0 2

deliver_run :
    deliver grow (codes "d" ∷ codes "e" ∷ []) empty_response ≡ (true, buffer_of (codes "de"))
unfolding deliver write_chunk_to_tracker_response_buffer
deliver_run = refl

announce_run :
    (tracker_announce grow some_block curl address request).0 ≡ some (buffer_of (codes "de"))
unfolding tracker_announce perform deliver write_chunk_to_tracker_response_buffer ◌>>=◌
    acquire_or_exit unless_exit or_release acquiring releasing
announce_run = rw build_run refl

parse_run : tracker_response_parse (λ _ _. true) (buffer_of (codes "de")) ≡ ok empty_dictionary
unfolding tracker_response_parse bencode_parser_init is_valid_parser parse_object
    parse_bencode_buffer consume_current_byte dict_loop parse_bencode_dict value
parse_run = refl

tracker_announce_iff_example :
    ((response : ResponseBuffer) × ((tracker_announce grow some_block curl address request).0
        ≡ some response)
      × IsBody response (codes "de"))
    ↔ ((tracker_url : Bytes) × Announced some_block grow curl address request tracker_url
        × (codes "de" ≡ body (curl.curl_easy_perform tracker_url).chunks))
tracker_announce_iff_example =
    tracker_announce_iff some_block grow curl address request (codes "de") grow-Reallocates

deliver-taken_example :
    ((deliver grow (codes "d" ∷ codes "e" ∷ []) empty_response).0 ≡ true)
    × IsBody (deliver grow (codes "d" ∷ codes "e" ∷ []) empty_response).1 (codes "de")
deliver-taken_example =
    deliver-taken grow grow-Reallocates (λ old n. (take n (bytes_of old ++ replicate n 0), refl))
      (codes "d" ∷ codes "e" ∷ []) [] empty_response
      (record { counted = refl; held = inr (refl, refl) }) (omega arith)

tracker_announce-Encodes_example :
    (tracker_url : Bytes) × Announced some_block grow curl address request tracker_url
    × Encodes empty_dictionary 0 (body (curl.curl_easy_perform tracker_url).chunks)
    × (type_of (value empty_dictionary) ≡ DataType.dictionary)
tracker_announce-Encodes_example =
    tracker_announce-Encodes some_block grow curl address request (buffer_of (codes "de"))
      (λ _ _. true) empty_dictionary grow-Reallocates announce_run parse_run
