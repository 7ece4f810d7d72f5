-- ===== src/Start/Unwinding.antt =====
-- src/main.c: what the exits of `main` release is what was acquired before the connections.
use loco.Base.{List, [], ◌∷◌, ◌++◌}
use loco.Resources.{Resource, peers}
use loco.Bencode.Types.{Object, value}
use loco.Tracker.Peers.{Peer}
use loco.Tracker.Response.{ResponseBuffer}
use loco.Start.{peers_held}
use loco.Start.Main.{answer_held}

-- The array of the peers is there or not.
data MaybePeers : List Resource → Type 0 where
  no_array : MaybePeers []
  an_array : MaybePeers (peers ∷ [])

-- What is held with the peers.
abbrev peers_kept : ResponseBuffer → Object × List Peer → List Resource
peers_kept r (o, ps) = peers_held (value o) ++ answer_held r.bytes
