-- ===== src/Tracker/Announce/Laws.antt =====
-- src/tracker.c: an announce that succeeds returns the whole body of the tracker's answer.
use loco.Base.{
  ℕ, ◌≡◌, ◌↔◌, refl, sym, subst, ◌∙◌, inl, inr, Bool, true, false, ◌&&◌, Option, some, Bytes, arith,
  ==_iff,
}
use loco.Bencode.Types.{Segment}
use loco.Tracker.Response.{ResponseBuffer}
use loco.Tracker.Url.{TrackerRequest}
use loco.Tracker.Url.Write.{build_tracker_url}
use loco.Resources.{◌>>=◌, acquire_or_exit, unless_exit, or_release, acquiring, releasing}
use loco.Resources.Values.{bind-some, acquire-some, unless_not-some, or_release-some, when-true}
use loco.Tracker.Announce.{Curl, empty_response, deliver, perform, tracker_announce}
use loco.Tracker.Announce.Chunks.{Reallocates, body, IsBody, transferred}

and-true : (a b : Bool) → (a && b) ≡ true → (a ≡ true) × (b ≡ true)
and-true true b e = (refl, e)
and-true false b e = cc e

-- What an announce comes to: the URL is built and set, the transfer ends well with the status 200, and
-- its callback took every chunk.
pub record Announced (malloc : ℕ → Option Bytes) (realloc : Option Bytes → ℕ → Option Bytes)
    (curl : Curl) (announce : Segment) (request : TrackerRequest) (tracker_url : Bytes)
    : Type 0 where
  pub ready : (curl.curl ≡ true) × (curl.write_function ≡ true) × (curl.write_data ≡ true)
  pub built :
      (build_tracker_url malloc curl.curl_easy_escape curl.url_curl announce request).0
      ≡ some tracker_url
  pub url_set : curl.set_url tracker_url ≡ true
  pub taken : (deliver realloc (curl.curl_easy_perform tracker_url).chunks empty_response).0 ≡ true
  pub performed : (curl.curl_easy_perform tracker_url).performed ≡ true
  pub info : (curl.curl_easy_perform tracker_url).info ≡ true
  pub success : (curl.curl_easy_perform tracker_url).status_code ≡ 200

-- What a buffer holds is one text.
IsBody-unique :
    (response : ResponseBuffer) (a b : Bytes) → IsBody response a → IsBody response b → a ≡ b
IsBody-unique response a b h k = elim h.held [
  | inl x ↦ elim k.held [ inl y ↦ ground (arith, x, y) | inr (y, _) ↦ absurd (cc (x, y)) ]
  | inr (x, e) ↦ elim k.held [ inl y ↦ absurd (cc (x, y)) | inr (_, e') ↦ e ∙ sym e' ]
]

module _ (malloc : ℕ → Option Bytes) (realloc : Option Bytes → ℕ → Option Bytes) (curl : Curl)
    (announce : Segment) (request : TrackerRequest) (r : Reallocates realloc) where
  abbrev body_at : Bytes → Bytes
  body_at url = body (curl.curl_easy_perform url).chunks

  pub from_returned :
      (response : ResponseBuffer)
      → (tracker_announce realloc malloc curl announce request).0 ≡ some response
      → (url : Bytes) × Announced malloc realloc curl announce request url
        × IsBody response (body_at url)
  unfolding tracker_announce perform acquiring releasing
  from_returned response e =
      let (_, ready, e1) = bind-some _ _ response e in
      let (_, function, e2) = bind-some _ _ response e1 in
      let (_, to_buffer, e3) = bind-some _ _ response e2 in
      let (url, built, e4) = bind-some _ _ response e3 in
      let (_, set, e5) = bind-some _ _ response e4 in
      let (_, _, e6) = bind-some _ _ response e5 in
      let (z, kept, e7) = bind-some _ _ response e6 in
      let (_, both, e8) = bind-some _ _ response e7 in
      let (_, last, e9) = bind-some _ _ response e8 in
      let (taken, performed) = and-true _ _ (unless_not-some _ _ _ both) in
      let (info, status) = and-true _ _ (unless_not-some _ _ _ last) in
      let t = curl.curl_easy_perform url in
      let same : (deliver realloc t.chunks empty_response).1 ≡ response = cc (kept, e9) in
      (
        url,
        record {
          ready = (
            when-true _ _ (acquire-some _ _ _ _ ready),
            unless_not-some _ _ _ function,
            unless_not-some _ _ _ to_buffer,
          );
          built = or_release-some _ _ url built;
          url_set = unless_not-some _ _ _ set;
          taken = taken;
          performed = performed;
          info = info;
          success = (==_iff t.status_code 200).0 status;
        },
        subst (λ (z : ResponseBuffer). IsBody z (body t.chunks)) same
            (transferred realloc r t.chunks taken),
      )

  returned :
      (url : Bytes)
      → Announced malloc realloc curl announce request url
      → (tracker_announce realloc malloc curl announce request).0
        ≡ some (deliver realloc (curl.curl_easy_perform url).chunks empty_response).1
  unfolding tracker_announce perform ◌>>=◌ acquire_or_exit unless_exit or_release acquiring
      releasing
  returned url a =
      rw
        (
          a.ready.0,
          a.ready.1,
          a.ready.2,
          a.built,
          a.url_set,
          a.taken,
          a.performed,
          a.info,
          (==_iff (curl.curl_easy_perform url).status_code 200).1 a.success,
        )
        refl

-- A buffer with a text is returned exactly where the URL is built and set, the transfer ends well with
-- the status 200, the callback takes every chunk, and the text is the body: the chunks one behind the
-- other. realloc behaves as documented.
pub tracker_announce_iff :
    (malloc : ℕ → Option Bytes) (realloc : Option Bytes → ℕ → Option Bytes) (curl : Curl)
    (announce : Segment) (request : TrackerRequest) (text : Bytes)
    → Reallocates realloc
    → ((response : ResponseBuffer) × ((tracker_announce realloc malloc curl announce request).0
          ≡ some response)
        × IsBody response text)
      ↔ ((tracker_url : Bytes) × Announced malloc realloc curl announce request tracker_url
          × (text ≡ body (curl.curl_easy_perform tracker_url).chunks))
tracker_announce_iff malloc realloc curl announce request text r = (sound, complete)
  where
    sound :
        (response : ResponseBuffer) × ((tracker_announce realloc malloc curl announce request).0
            ≡ some response)
          × IsBody response text
        → (tracker_url : Bytes) × Announced malloc realloc curl announce request tracker_url
          × (text ≡ body (curl.curl_easy_perform tracker_url).chunks)
    sound (response, e, h) =
        let (url, a, k) = from_returned malloc realloc curl announce request r response e in
        (url, a, IsBody-unique response text _ h k)

    complete :
        (tracker_url : Bytes) × Announced malloc realloc curl announce request tracker_url
          × (text ≡ body (curl.curl_easy_perform tracker_url).chunks)
        → (response : ResponseBuffer) × ((tracker_announce realloc malloc curl announce request).0
            ≡ some response)
          × IsBody response text
    complete (url, a, e) = (
      (deliver realloc (curl.curl_easy_perform url).chunks empty_response).1,
      returned malloc realloc curl announce request r url a,
      subst (IsBody _) (sym e) (transferred realloc r (curl.curl_easy_perform url).chunks a.taken),
    )
