-- ===== src/Peer/Connect/Addresses.antt =====
-- src/peer_connection.c with src/tracker.c: the addresses that are connected to are those that the tracker
-- wrote.
use loco.Base.{List, [], ◌∷◌, ◌++◌, Bytes}
use loco.Tracker.Peers.{Peer}
use loco.Peer.Connect.{socket_address}

-- What connect is given for each peer, one behind the other: the address and the port in memory.
abbrev pub addresses_of : List Peer → Bytes
addresses_of [] = []
addresses_of (p ∷ ps) =
    ((socket_address p).sin_addr ++ (socket_address p).sin_port) ++ addresses_of ps
