-- ===== src/Peer/Connect/Laws.antt =====
-- `connect_to_peer` leaves a descriptor open exactly where it returns one.
use loco.Base.{ℕ, ◌≡◌, refl, Option, none, some, List, [], ◌∷◌}
use loco.Resources.{Resource, descriptor, Program, settle}
use loco.Resources.Laws.{
  Unwinds, carries, exits, Unwinds-continued, or_exit-Unwinds, acquire-Unwinds, unless-Unwinds,
}
use loco.Peer.Connect.{
  Connecting, connected, in_progress, unreachable, ConnectAnswers, await_connection,
  connect_to_peer, socket_address,
}
use loco.Tracker.Peers.{Peer}

await-Unwinds :
    (y : ConnectAnswers) (c : Connecting)
    → Unwinds (descriptor ∷ []) [] (λ _. descriptor ∷ []) (await_connection y c)
unfolding await_connection
await-Unwinds y connected = carries refl
await-Unwinds y unreachable = exits refl
await-Unwinds y in_progress =
    Unwinds-continued (unless-Unwinds _ _ refl)
      (λ _. Unwinds-continued (unless-Unwinds _ _ refl) (λ _. unless-Unwinds _ _ refl))

-- The descriptor, if there is one.
abbrev pub descriptor_held : Option ℕ → List Resource
descriptor_held none = []
descriptor_held (some file_descriptor) = descriptor ∷ []

settled :
    {p : Program ℕ}
    → Unwinds [] [] (λ _. descriptor ∷ []) p
    → settle p.1 (some []) ≡ some (descriptor_held p.0)
settled (carries e) = e
settled (exits e) = e

-- Whatever the system answers, the socket is open behind `connect_to_peer` where its descriptor is
-- returned, and has been closed, once, where -1 is returned and it was opened.
pub settle-connect_to_peer :
    (peer : Peer) (y : ConnectAnswers)
    → settle (connect_to_peer peer y).1 (some [])
      ≡ some (descriptor_held (connect_to_peer peer y).0)
unfolding connect_to_peer
settle-connect_to_peer peer y = settled (
    Unwinds-continued (acquire-Unwinds _ _ _ refl) (λ fd.
      Unwinds-continued (or_exit-Unwinds _ _ refl) (λ flags.
        Unwinds-continued (unless-Unwinds _ _ refl) (λ _.
          Unwinds-continued (await-Unwinds y (y.connecting (socket_address peer)))
            (λ _. Unwinds-continued (unless-Unwinds _ _ refl) (λ _. carries refl))))))
