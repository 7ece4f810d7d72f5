-- ===== src/Tracker/Announce/Chunks.antt =====
-- src/tracker.c: the callback that collects the answer appends each chunk that it takes.
use loco.Base.{
  drop_all, take_all, ℕ, ◌+◌, ◌-◌, ◌*◌, ◌%◌, ◌^◌, ◌≤◌, ◌≡◌, refl, sym, ap, subst, ◌∙◌, ◌⊎◌, inl,
  inr, true, Bool-cases, Option, none, some, List, [], ◌∷◌, ◌++◌, append_assoc, append-nil, Bytes,
  arith, copy_at, copy_at_lem, length, length-append, take, drop, size_max, ltb, ◌==◌, ==_iff,
}
use loco.Tracker.Response.{ResponseBuffer}
use loco.Tracker.Announce.{
  empty_response, put_chunk, write_chunk_to_tracker_response_buffer, deliver,
}

-- The block that realloc gives has the size that was asked for, and starts with the old block.
pub record Reallocates (realloc : Option Bytes → ℕ → Option Bytes) : Type 0 where
  pub sized :
      (old : Option Bytes) (n : ℕ) (block : Bytes) → realloc old n ≡ some block → length block ≡ n
  pub kept :
      (old : Bytes) (n : ℕ) (block : Bytes)
      → realloc (some old) n ≡ some block
      → length old ≤ n
      → take (length old) block ≡ old

-- The body: the chunks one behind the other.
abbrev pub body : List Bytes → Bytes
body [] = []
body (chunk ∷ chunks) = chunk ++ body chunks

-- The buffer holds the bytes; it has no block before the first chunk.
pub record IsBody (response : ResponseBuffer) (text : Bytes) : Type 0 where
  pub counted : response.length ≡ length text
  pub held : (response.bytes ≡ some text) ⊎ ((response.bytes ≡ none) × (text ≡ []))

-- A copy at the end of the old block's content, in a block with just the room.
copied :
    (block text chunk : Bytes)
    → length block ≡ length text + length chunk
    → take (length text) block ≡ text
    → copy_at block (length text) chunk ≡ text ++ chunk
copied block text chunk sized kept =
    copy_at_lem block (length text) chunk (omega (arith, sized))
    ∙ ap (λ t. t ++ (chunk ++ drop (length text + length chunk) block)) kept
    ∙ ap (λ t. text ++ (chunk ++ t))
        (drop_all (length text + length chunk) block (omega (arith, sized)))
    ∙ ap (λ t. text ++ t) (append-nil chunk)

not_taken :
    (chunk text : Bytes) (response : ResponseBuffer)
    → IsBody response text
    → 0 ≡ length chunk
    → IsBody response (text ++ chunk)
not_taken [] text response h e = rw (append-nil text) h
not_taken (b ∷ bs) text response h e = absurd (omega (arith, e))

module _ (realloc : Option Bytes → ℕ → Option Bytes) (r : Reallocates realloc) where
  -- The content of the block, behind the old one or the first.
  put_chunk-held :
      (chunk text block : Bytes) (response : ResponseBuffer)
      → IsBody response text
      → realloc response.bytes (response.length + length chunk) ≡ some block
      → copy_at block response.length chunk ≡ text ++ chunk
  put_chunk-held chunk text block response h e =
      ap (λ n. copy_at block n chunk) h.counted
      ∙ copied block text chunk (omega (arith, r.sized response.bytes _ block e, h.counted))
          (elim h.held [
            | inl some_text ↦
                r.kept text (response.length + length chunk) block
                  (ap (λ o. realloc o (response.length + length chunk)) (sym some_text) ∙ e)
                  (omega (arith, h.counted))
            | inr (no_block, no_text) ↦ ap (λ t. take (length t) block) no_text ∙ sym no_text
          ])

  pub put_chunk-IsBody :
      (chunk text : Bytes) (response : ResponseBuffer) (o : Option Bytes) (n : ℕ)
      → IsBody response text
      → realloc response.bytes (response.length + n) ≡ o
      → (put_chunk realloc chunk n response o).0 ≡ length chunk
      → IsBody (put_chunk realloc chunk n response o).1 (text ++ chunk)
  put_chunk-IsBody chunk text response none n h e taken = not_taken chunk text response h taken
  put_chunk-IsBody chunk text response (some block) n h e taken = record {
    counted = omega (arith, h.counted, taken, length-append text chunk);
    held = inl (
        ap some (
          ap (λ c. copy_at block response.length c) (take_all n chunk (omega (arith, taken)))
          ∙ put_chunk-held chunk text block response h
              (ap (λ m. realloc response.bytes (response.length + m)) (sym taken) ∙ e)));
  }

  -- The callback, where it takes the chunk whole.
  pub write_chunk-IsBody :
      (chunk text : Bytes) (response : ResponseBuffer)
      → IsBody response text
      → (write_chunk_to_tracker_response_buffer realloc chunk 1 (length chunk) response).0
        ≡ length chunk
      → IsBody
          (write_chunk_to_tracker_response_buffer realloc chunk 1 (length chunk) response).1
          (text ++ chunk)
  unfolding write_chunk_to_tracker_response_buffer
  write_chunk-IsBody chunk text response h =
      elim (Bool-cases (ltb (size_max - 1 * length chunk % 2 ^ 64) response.length)) [
        | inl full ↦ rw full (λ taken. not_taken chunk text response h taken)
        | inr room ↦ rw room (λ taken. put_chunk-IsBody chunk text response _ _ h refl taken)
      ]

  -- All chunks were taken whole.
  pub deliver-IsBody :
      (chunks : List Bytes) (text : Bytes) (response : ResponseBuffer)
      → IsBody response text
      → (deliver realloc chunks response).0 ≡ true
      → IsBody (deliver realloc chunks response).1 (text ++ body chunks)
  unfolding deliver
  deliver-IsBody [] text response h = λ taken. rw (append-nil text) h
  deliver-IsBody (chunk ∷ chunks) text response h =
      let w = write_chunk_to_tracker_response_buffer realloc chunk 1 (length chunk) response in
      elim (Bool-cases (w.0 == length chunk)) [
        | inl whole ↦ rw whole (λ taken.
            subst (λ t. IsBody (deliver realloc chunks w.1).1 t)
              (append_assoc text chunk (body chunks))
              (deliver-IsBody chunks (text ++ chunk) w.1
                (write_chunk-IsBody chunk text response h ((==_iff w.0 (length chunk)).0 whole))
                taken))
        | inr part ↦ rw part (λ taken. cc taken)
      ]

  -- The same from an empty buffer.
  pub transferred :
      (chunks : List Bytes)
      → (deliver realloc chunks empty_response).0 ≡ true
      → IsBody (deliver realloc chunks empty_response).1 (body chunks)
  transferred chunks =
      deliver-IsBody chunks [] empty_response (record { counted = refl; held = inr (refl, refl) })
