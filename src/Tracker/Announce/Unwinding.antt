-- ===== src/Tracker/Announce/Unwinding.antt =====
-- src/tracker.c: `tracker_announce` gives back its handle and the URL on every path, and the answer where
-- it fails.
use loco.Base.{ℕ, ◌≡◌, refl, Option, none, some, List, [], ◌∷◌, ◌++◌, Bytes}
use loco.Bencode.Types.{Segment}
use loco.Resources.{Resource, curl_handle, all_acquired, acquiring, releasing, settle}
use loco.Resources.Laws.{
  Clears, Unwinds, carries, Unwinds-continued, acquire-Unwinds, unless-Unwinds, or_release-Unwinds,
}
use loco.Tracker.Response.{ResponseBuffer}
use loco.Tracker.Url.{TrackerRequest}
use loco.Tracker.Url.Unwinding.{build_tracker_url-Unwinds}
use loco.Tracker.Announce.{
  Transfer, Curl, data_held, empty_response, deliver, perform, tracker_announce,
}

module _ (realloc : Option Bytes → ℕ → Option Bytes) (held : List Resource) where
  acquiring-Unwinds :
      (r : ResponseBuffer)
      → Unwinds
          (curl_handle ∷ held)
          held
          (λ (z : ResponseBuffer). data_held z.bytes ++ curl_handle ∷ held)
          (acquiring (data_held r.bytes) r)
  unfolding acquiring
  acquiring-Unwinds r = carries (block-acquired r.bytes)
    where
      block-acquired :
          (b : Option Bytes)
          → settle (all_acquired (data_held b)) (some (curl_handle ∷ held))
            ≡ some (data_held b ++ curl_handle ∷ held)
      block-acquired none = refl
      block-acquired (some bs) = refl

  handle-Clears :
      (b : Option Bytes)
      → Clears (data_held b ++ curl_handle ∷ held) held (curl_handle ∷ data_held b)
  handle-Clears none = refl
  handle-Clears (some bs) = refl

  returned-Clears :
      (b : Option Bytes)
      → Clears (data_held b ++ curl_handle ∷ held) (data_held b ++ held) (curl_handle ∷ [])
  returned-Clears none = refl
  returned-Clears (some bs) = refl

  perform-Unwinds :
      (t : Transfer)
      → Unwinds
          (curl_handle ∷ held)
          held
          (λ (r : ResponseBuffer). data_held r.bytes ++ held)
          (perform realloc t)
  unfolding perform releasing
  perform-Unwinds t =
      Unwinds-continued (acquiring-Unwinds (deliver realloc t.chunks empty_response).1)
        (λ (r : ResponseBuffer).
          Unwinds-continued (unless-Unwinds _ _ (handle-Clears r.bytes)) (λ _.
            Unwinds-continued (unless-Unwinds _ _ (handle-Clears r.bytes))
              (λ _. carries (returned-Clears r.bytes))))

  -- Behind it, the block of the answer is held where it is returned, and nothing new elsewhere.
  pub tracker_announce-Unwinds :
      (malloc : ℕ → Option Bytes) (curl : Curl) (announce : Segment) (request : TrackerRequest)
      → Unwinds held held
          (λ (r : ResponseBuffer). data_held r.bytes ++ held)
          (tracker_announce realloc malloc curl announce request)
  unfolding tracker_announce releasing
  tracker_announce-Unwinds malloc curl announce request =
      Unwinds-continued (acquire-Unwinds _ _ _ refl) (λ _.
        Unwinds-continued (unless-Unwinds _ _ refl) (λ _.
          Unwinds-continued (unless-Unwinds _ _ refl) (λ _.
            Unwinds-continued
              (or_release-Unwinds _ refl (
                build_tracker_url-Unwinds malloc (curl_handle ∷ held) curl.curl_easy_escape
                  curl.url_curl announce request))
              (λ url. Unwinds-continued (unless-Unwinds _ _ refl) (λ _.
                Unwinds-continued (carries refl)
                  (λ _. perform-Unwinds (curl.curl_easy_perform url)))))))
