-- ===== src/Tracker/Announce/Whole.antt =====
-- src/tracker.c: where memory is granted, the callback takes the whole answer, and what is parsed from
-- it is the body of the transfer.
use loco.Base.{
  ℕ, ◌+◌, ◌-◌, ◌*◌, ◌%◌, ◌^◌, ◌≤◌, ◌≡◌, refl, sym, ap, ap₂, subst, ◌∙◌, inl, inr, true, false,
  Option, some, List, [], ◌∷◌, ◌++◌, Bytes, arith, length, length-append, size_max, ltb, ==_iff,
}
use loco.Bencode.Types.{Segment, DataType, Object, value, type_of}
use loco.Bencode.Action.{ok}
use loco.Bencode.Arrays.{Allocator}
use loco.Bencode.Grammar.{Encodes}
use loco.Bencode.Cursor.{bencode_parser_init, is_valid_parser}
use loco.Tracker.Response.{ResponseBuffer, tracker_response_parse}
use loco.Tracker.Response.Laws.{response-Encodes}
use loco.Tracker.Url.{TrackerRequest}
use loco.Tracker.Announce.{Curl, write_chunk_to_tracker_response_buffer, deliver, tracker_announce}
use loco.Tracker.Announce.Chunks.{Reallocates, IsBody, body, write_chunk-IsBody, deliver-IsBody}
use loco.Tracker.Announce.Laws.{Announced, from_returned}

abbrev pub GrantsBlocks : (Option Bytes → ℕ → Option Bytes) → Type 0
GrantsBlocks realloc = (old : Option Bytes) (n : ℕ) → (block : Bytes) × (realloc old n ≡ some block)

module _ (realloc : Option Bytes → ℕ → Option Bytes) (r : Reallocates realloc)
    (g : GrantsBlocks realloc) where
  write_chunk-taken :
      (chunk : Bytes) (response : ResponseBuffer)
      → response.length + length chunk ≤ size_max
      → (write_chunk_to_tracker_response_buffer realloc chunk 1 (length chunk) response).0
        ≡ length chunk
  unfolding write_chunk_to_tracker_response_buffer
  write_chunk-taken chunk response fits =
      let whole : 1 * length chunk % 2 ^ 64 ≡ length chunk = omega (arith, fits) in
      let room : ltb (size_max - length chunk) response.length ≡ false = ground (arith, fits) in
      rw (whole, room) (rw (g response.bytes (response.length + length chunk)).1 refl)

  all_taken :
      (chunks : List Bytes) (text : Bytes) (response : ResponseBuffer)
      → IsBody response text
      → length text + length (body chunks) ≤ size_max
      → (deliver realloc chunks response).0 ≡ true
  unfolding deliver
  all_taken [] text response h fits = refl
  all_taken (chunk ∷ chunks) text response h fits =
      let taken =
        write_chunk-taken chunk response
          (omega (arith, h.counted, fits, length-append chunk (body chunks))) in
      rw ((==_iff _ (length chunk)).1 taken) (
        all_taken chunks (text ++ chunk) _
          (write_chunk-IsBody realloc r chunk text response h taken)
          (omega (arith, fits, length-append chunk (body chunks), length-append text chunk)))

  -- The callback takes all chunks, and the buffer then holds the body: memory is granted, and the body
  -- behind what is there fits in size_t. realloc behaves as documented.
  pub deliver-taken :
      (chunks : List Bytes) (text : Bytes) (response : ResponseBuffer)
      → IsBody response text
      → length text + length (body chunks) ≤ size_max
      → ((deliver realloc chunks response).0 ≡ true)
        × IsBody (deliver realloc chunks response).1 (text ++ body chunks)
  deliver-taken chunks text response h fits = (
    all_taken chunks text response h fits,
    deliver-IsBody realloc r chunks text response h (all_taken chunks text response h fits),
  )

-- A buffer with no block is parsed as one of no bytes.
parsed-Encodes :
    (grows : Allocator) (response : ResponseBuffer) (text : Bytes) (x : Object)
    → IsBody response text
    → tracker_response_parse grows response ≡ ok x
    → Encodes x 0 text × (type_of (value x) ≡ DataType.dictionary)
unfolding tracker_response_parse bencode_parser_init is_valid_parser
parsed-Encodes grows response text x h e = elim h.held [
  | inl held ↦ response-Encodes grows text x (
      ap₂ (λ b n. tracker_response_parse grows (record { bytes = b; length = n })) (sym held)
        (sym h.counted)
      ∙ e)
  | inr (no_block, no_text) ↦
      subst (λ t. Encodes x 0 t × (type_of (value x) ≡ DataType.dictionary)) (sym no_text)
        (response-Encodes grows [] x (
          ap₂ (λ b n. tracker_response_parse grows (record { bytes = b; length = n }))
            (sym no_block) (sym (h.counted ∙ ap length no_text))
          ∙ e))
]

-- The object parsed from the response of an announce is what the body of the transfer encodes, all of
-- it, and is a dictionary. realloc behaves as documented.
pub tracker_announce-Encodes :
    (malloc : ℕ → Option Bytes) (realloc : Option Bytes → ℕ → Option Bytes) (curl : Curl)
    (announce : Segment) (request : TrackerRequest) (response : ResponseBuffer) (grows : Allocator)
    (x : Object)
    → Reallocates realloc
    → (tracker_announce realloc malloc curl announce request).0 ≡ some response
    → tracker_response_parse grows response ≡ ok x
    → (tracker_url : Bytes) × Announced malloc realloc curl announce request tracker_url
      × Encodes x 0 (body (curl.curl_easy_perform tracker_url).chunks)
      × (type_of (value x) ≡ DataType.dictionary)
tracker_announce-Encodes malloc realloc curl announce request response grows x r e parsed =
    let (url, a, h) = from_returned malloc realloc curl announce request r response e in
    let (g, typed) = parsed-Encodes grows response _ x h parsed in (url, a, g, typed)
