-- ===== src/Tracker/Url/Unwinding.antt =====
-- src/tracker.c: `build_tracker_url` gives back what libcurl gave, and the block where it fails.
use loco.Base.{ℕ, refl, Bool, Option, List, ◌∷◌, Bytes}
use loco.Bencode.Types.{Segment}
use loco.Resources.{
  Resource, escaped_info_hash, escaped_peer_id, url_curl_handle, url_block, releasing,
}
use loco.Resources.Laws.{
  Unwinds, carries, Unwinds-continued, or_exit-Unwinds, acquire-Unwinds, unless-Unwinds,
}
use loco.Tracker.Url.{TrackerRequest, Texts}
use loco.Tracker.Url.Write.{write_url, build_tracker_url}

module _ (malloc : ℕ → Option Bytes) (held : List Resource) where
  write_url-Unwinds :
      (announce : Segment) (x : Texts)
      → Unwinds
          (escaped_peer_id ∷ escaped_info_hash ∷ url_curl_handle ∷ held)
          held
          (λ _. url_block ∷ held)
          (write_url malloc announce x)
  unfolding write_url releasing
  write_url-Unwinds announce x = Unwinds-continued (or_exit-Unwinds _ _ refl) (λ capacity.
      Unwinds-continued (acquire-Unwinds _ _ _ refl) (λ block.
        Unwinds-continued (unless-Unwinds _ _ refl) (λ _.
          Unwinds-continued (or_exit-Unwinds _ _ refl) (λ (written : Bytes × ℕ).
            Unwinds-continued (unless-Unwinds _ _ refl) (λ _. carries refl)))))

  -- Behind it, the block of the URL is held where it is returned, and nothing new elsewhere.
  pub build_tracker_url-Unwinds :
      (curl_easy_escape : Bytes → Option Bytes) (curl : Bool) (announce : Segment)
      (request : TrackerRequest)
      → Unwinds held held
          (λ _. url_block ∷ held)
          (build_tracker_url malloc curl_easy_escape curl announce request)
  unfolding build_tracker_url
  build_tracker_url-Unwinds escape curl announce request =
      Unwinds-continued (unless-Unwinds _ _ refl) (λ _.
        Unwinds-continued (acquire-Unwinds _ _ _ refl) (λ _.
          Unwinds-continued (acquire-Unwinds _ _ _ refl) (λ info_hash.
            Unwinds-continued (acquire-Unwinds _ _ _ refl) (λ peer_id.
              Unwinds-continued (or_exit-Unwinds _ _ refl) (λ port.
                Unwinds-continued (or_exit-Unwinds _ _ refl) (λ uploaded.
                  Unwinds-continued (or_exit-Unwinds _ _ refl) (λ downloaded.
                    Unwinds-continued (or_exit-Unwinds _ _ refl) (λ left.
                      Unwinds-continued (or_exit-Unwinds _ _ refl)
                        (λ (event : Bytes × Bool). write_url-Unwinds announce _)))))))))
