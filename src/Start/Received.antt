-- ===== src/Start/Received.antt =====
-- src/main.c: `main` where the messages come from the sockets of the peers.
pub mod Runs
use loco.Base.{ℕ, ◌<◌, ◌≡◌, sym, subst, pos, some, List, Bytes, length}
use loco.Download.State.{piece_count, Session}
use loco.Download.Invariant.{IsConsistent, OnFile}
use loco.Download.Invariant.Run.{AllRunsWhole}
use loco.Tracker.Peers.{Peer}
use loco.Download.Loop.{PeerRun}
use loco.Download.Sockets.{Connection, peer_runs}
use loco.Download.Sockets.Laws.{AllSendBytes, peer_runs-AllRunsWhole}
use loco.Start.{System, Document, read_document, torrent_of}
use loco.Start.Main.{main, exit_code}
use loco.Start.Results.{main-OnFile}

-- Where `main` returns 0, every piece of the torrent of the document that it read, whole and with the
-- right hash, has been written at its place, whatever bytes the peers send and however the system cuts
-- and interrupts them: malloc gives blocks of the size asked for, the length of the torrent fits its
-- pieces, and what happens with each peer comes from its socket, which gives bytes below 256.
pub main-received :
    (y : System) (d : Document) (info_hash peer_id : Bytes) (cs : List Connection)
    → ((n : ℕ) (block : Bytes) → y.malloc n ≡ some block → length block ≡ n)
    → (read_document y).0 ≡ some d
    → IsConsistent (torrent_of d.metadata.info)
    → y.peer_runs ≡ peer_runs info_hash peer_id cs
    → AllSendBytes cs
    → exit_code y ≡ pos 0
    → (s : Session) × ((main y).0 ≡ some s)
      × ((i : ℕ)
          → i < piece_count (torrent_of d.metadata.info)
          → OnFile y.sha1 (torrent_of d.metadata.info) s.file i)
main-received y d info_hash peer_id cs sized document fits runs bytes e =
    main-OnFile y d sized document fits
      (λ ps.
        subst (λ (f : List Peer → List PeerRun). AllRunsWhole (f ps)) (sym runs)
          (peer_runs-AllRunsWhole info_hash peer_id cs ps bytes))
      e
