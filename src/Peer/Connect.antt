-- ===== src/Peer/Connect.antt =====
-- src/peer_connection.c: `connect_to_peer`. A result of -1 is an exit of the part.
pub mod Addresses
pub mod Laws
use loco.Tracker.Peers.{Peer}
use loco.Base.{ℕ, Bytes, take, ◌/◌, ◌%◌, ◌^◌, ℤ, Bool, not, Option, none, some, List, [], ◌∷◌, ◌==◌}
use loco.Metadata.{is_positive}
use loco.Resources.{
  descriptor, Program, ◌>>=◌, ◌>>◌, all_released, or_exit, acquire_or_exit, unless_exit,
}

-- How `connect` comes back on a socket that does not block: connected, with EINPROGRESS, or with another
-- error.
pub data Connecting : Type 0 where
  connected in_progress unreachable : Connecting

-- The fields of `struct sockaddr_in` that are set, as they are in memory: the port in network byte order.
pub record SocketAddress : Type 0 where
  pub sin_port : Bytes
  pub sin_addr : Bytes

-- Of htons, the two bytes.
abbrev network_order : ℕ → Bytes
network_order port = (port / 2 ^ 8 % 256) ∷ (port % 256) ∷ []

abbrev pub socket_address : Peer → SocketAddress
socket_address peer = record {
  sin_port = network_order peer.port;
  sin_addr = take 4 peer.ipv4_address;
}

-- What the calls of the system answer: the descriptor and its flags (none where the call gives -1),
-- whether the flags are set, what connect gives for an address, what poll and getsockopt give, and whether the flags are set back.
pub record ConnectAnswers : Type 0 where
  pub socket : Option ℕ
  pub flags : Option ℕ
  pub nonblocking_set : Bool
  pub connecting : SocketAddress → Connecting
  pub poll_result : ℤ
  pub error_read : Bool
  pub socket_error : ℕ
  pub flags_set_back : Bool

-- The wait for a connection that is in progress.
unfoldable pub await_connection : ConnectAnswers → Connecting → Program (Unit {0})
await_connection y connected = (some tt, [])
await_connection y unreachable = (none, all_released (descriptor ∷ []))
await_connection y in_progress = do
  unless_exit (descriptor ∷ []) (not (is_positive y.poll_result))
  unless_exit (descriptor ∷ []) (not y.error_read)
  unless_exit (descriptor ∷ []) (not (y.socket_error == 0))

unfoldable pub connect_to_peer : Peer → ConnectAnswers → Program ℕ
connect_to_peer peer y = do
  file_descriptor ← acquire_or_exit descriptor [] y.socket
  flags ← or_exit (descriptor ∷ []) y.flags
  unless_exit (descriptor ∷ []) (not y.nonblocking_set)
  await_connection y (y.connecting (socket_address peer))
  unless_exit (descriptor ∷ []) (not y.flags_set_back)
  (some file_descriptor, [])
