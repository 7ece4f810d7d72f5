-- ===== src/Peer/Send/Laws.antt =====
-- What is sent is the message, from its first byte on, and all of it where sending succeeds.
use loco.Base.{
  ℕ, zero, suc, ◌≤◌, ◌≡◌, ◌≢◌, refl, sym, ap, ◌∙◌, inl, inr, pos, true, false, Bool-cases, List, [],
  ◌∷◌, ◌++◌, append_assoc, Bytes, arith, take, drop, length, length-drop, take-append-drop, ◌==◌,
}
use loco.Peer.Wire.{big_endian}
use loco.Peer.Wire.Laws.{build_request_lem}
use loco.Peer.Send.{
  SendAnswer, accepted, interrupted, broken, Sending, finished, gave_up, blocked, sent_before,
  send_loop, peer_send_request,
}

-- All of the message was sent where sending finished, and a part from its start, but not all of it,
-- elsewhere.
pub data Sends (text : Bytes) : Sending → Type 0 where
  sends_all : {w : Bytes} {rest : List SendAnswer} → w ≡ text → Sends text (finished w rest)
  sends_part :
      {w : Bytes} (missing : Bytes) → w ++ missing ≡ text → missing ≢ [] → Sends text (gave_up w)
  sends_so_far :
      {w : Bytes} (missing : Bytes) → w ++ missing ≡ text → missing ≢ [] → Sends text (blocked w)

Sends-behind :
    {text : Bytes} {r : Sending} (d rest : Bytes)
    → d ++ rest ≡ text
    → Sends rest r
    → Sends text (sent_before d r)
Sends-behind d rest e (sends_all same) = sends_all (ap (λ w. d ++ w) same ∙ e)
Sends-behind d rest e (sends_part {w} missing same some_left) =
    sends_part missing (append_assoc d w missing ∙ ap (λ w. d ++ w) same ∙ e) some_left
Sends-behind d rest e (sends_so_far {w} missing same some_left) =
    sends_so_far missing (append_assoc d w missing ∙ ap (λ w. d ++ w) same ∙ e) some_left

no_bytes : (bs : Bytes) → (length bs == 0) ≡ true → bs ≡ []
no_bytes [] e = refl
no_bytes (b ∷ bs) e = absurd (ground (arith, e))

some_bytes : (bs : Bytes) → (length bs == 0) ≡ false → bs ≢ []
some_bytes [] e = λ _. absurd (cc e)
some_bytes (b ∷ bs) e = λ h. cc h

pub send_loop-Sends :
    (buffer : Bytes) (answers : List SendAnswer) → Sends buffer (send_loop buffer answers)
unfolding send_loop
send_loop-Sends buffer [] = elim (Bool-cases (length buffer == 0)) [
  | inl e ↦ rw e (sends_all (sym (no_bytes buffer e)))
  | inr e ↦ rw e (sends_so_far buffer refl (some_bytes buffer e))
]
send_loop-Sends buffer (accepted k ∷ rest) = elim (Bool-cases (length buffer == 0)) [
  | inl e ↦ rw e (sends_all (sym (no_bytes buffer e)))
  | inr e ↦ elim (Bool-cases (k == 0)) [
    | inl zero_sent ↦ rw (e, zero_sent) (sends_part buffer refl (some_bytes buffer e))
    | inr progress ↦
        rw (e, progress)
          (Sends-behind (take k buffer) (drop k buffer) (take-append-drop k buffer)
            (send_loop-Sends (drop k buffer) rest))
  ]
]
send_loop-Sends buffer (interrupted ∷ rest) = elim (Bool-cases (length buffer == 0)) [
  | inl e ↦ rw e (sends_all (sym (no_bytes buffer e)))
  | inr e ↦ rw e (send_loop-Sends buffer rest)
]
send_loop-Sends buffer (broken ∷ rest) = elim (Bool-cases (length buffer == 0)) [
  | inl e ↦ rw e (sends_all (sym (no_bytes buffer e)))
  | inr e ↦ rw e (sends_part buffer refl (some_bytes buffer e))
]

-- No call of send fails or accepts nothing.
abbrev pub Progresses : List SendAnswer → Type 0
Progresses [] = Unit {0}
Progresses (accepted k ∷ rest) = (1 ≤ k) × Progresses rest
Progresses (interrupted ∷ rest) = Progresses rest
Progresses (broken ∷ rest) = ⊥

-- How many calls of send are not interrupted.
abbrev pub calls : List SendAnswer → ℕ
calls [] = 0
calls (accepted k ∷ rest) = suc (calls rest)
calls (interrupted ∷ rest) = calls rest
calls (broken ∷ rest) = calls rest

send_loop-nil : (answers : List SendAnswer) → send_loop [] answers ≡ finished [] answers
unfolding send_loop
send_loop-nil [] = refl
send_loop-nil (accepted k ∷ rest) = refl
send_loop-nil (interrupted ∷ rest) = refl
send_loop-nil (broken ∷ rest) = refl

-- Where no call of send fails, and as many of them accept something as there are bytes, all are sent.
pub send_loop-finished :
    (buffer : Bytes) (answers : List SendAnswer)
    → Progresses answers
    → length buffer ≤ calls answers
    → (rest : List SendAnswer) × (send_loop buffer answers ≡ finished buffer rest)
unfolding send_loop
send_loop-finished [] answers h fits = (answers, send_loop-nil answers)
send_loop-finished (b ∷ bs) [] h fits = absurd (omega (arith, fits))
send_loop-finished (b ∷ bs) (accepted zero ∷ rest) (positive, h) fits =
    absurd (omega (arith, positive))
send_loop-finished (b ∷ bs) (accepted (suc k) ∷ rest) (positive, h) fits =
    let (left, e) = send_loop-finished (drop k bs) rest h (omega (arith, fits, length-drop k bs)) in
    let more : (suc (length bs) == 0) ≡ false = ground arith in
    let some_sent : (suc k == 0) ≡ false = ground arith in
    (
      left,
      rw (more, some_sent)
          (ap (sent_before (b ∷ take k bs)) e
            ∙ ap (λ w. finished (b ∷ w) left) (take-append-drop k bs)),
    )
send_loop-finished (b ∷ bs) (interrupted ∷ rest) h fits =
    let more : (suc (length bs) == 0) ≡ false = ground arith in
    let (left, e) = send_loop-finished (b ∷ bs) rest h fits in (left, rw more e)
send_loop-finished (b ∷ bs) (broken ∷ rest) h fits = absurd h

-- What `peer_send_request` sends is the request message: all of it where it returns true, and a part from
-- its start elsewhere. The descriptor is not negative.
pub peer_send_request-Sends :
    (request_buffer : Bytes) (file_descriptor piece_index begin len : ℕ) (answers : List SendAnswer)
    → length request_buffer ≡ 17
    → Sends
        (big_endian 13 ++ 6 ∷ (big_endian piece_index ++ (big_endian begin ++ big_endian len)))
        (peer_send_request request_buffer (pos file_descriptor) piece_index begin len answers)
unfolding peer_send_request
peer_send_request-Sends buffer fd i b l answers h =
    rw (build_request_lem buffer i b l h) (send_loop-Sends _ answers)
