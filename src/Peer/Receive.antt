-- ===== src/Peer/Receive.antt =====
-- src/peer_connection.c: `receive_peer_wire_message`, over what the system's `recv` answers.
pub mod Takes
pub mod Complete
pub mod Laws
pub mod Runs
use loco.Base.{
  ℤ, pos, negsuc, ℕ, zero, suc, ◌+◌, ◌-◌, Bool, true, false, not, ◌&&◌, ◌||◌, Option, none, some,
  List, [], ◌∷◌, ◌++◌, Bytes, get_or, take, drop, length, ltb, leb, ◌==◌, if◌then◌else◌,
}
use loco.Peer.Types.{MessageId, PeerWireMessage, empty_message}
use loco.Peer.Wire.{from_big_endian}

-- What one call of recv does: it takes at most so many of the bytes that the peer sends (where it takes
-- none, it returns 0, as on a closed connection), or finds the connection closed, or is interrupted by
-- a signal (EINTR), or fails.
pub data RecvAnswer : Type 0 where
  received : ℕ → RecvAnswer
  closed interrupted broken : RecvAnswer

-- The bytes that the peer sends from now on, and what the calls of recv will do.
pub record Socket : Type 0 where
  pub incoming : Bytes
  pub answers : List RecvAnswer

-- `waiting` is a call of recv that has not come back.
pub data Reception (A : Type 0) : Type 0 where
  got : A → Socket → Reception A
  refused waiting : Reception A

abbrev pub Receiver : Type 0 → Type 0
Receiver A = Socket → Reception A

abbrev pub continue_with : {A B : Type 0} → Reception A → (A → Receiver B) → Reception B
continue_with (got a s) f = f a s
continue_with refused f = refused
continue_with waiting f = waiting

infixl 5 ◌>>=◌
abbrev pub ◌>>=◌ : {A B : Type 0} → Receiver A → (A → Receiver B) → Receiver B
(m >>= f) s = continue_with (m s) f

abbrev pub refuse : {A : Type 0} → Receiver A
refuse s = refused

abbrev pub return : {A : Type 0} → A → Receiver A
return a s = got a s

abbrev pub prepend : Bytes → Reception Bytes → Reception Bytes
prepend d (got b s) = got (d ++ b) s
prepend d refused = refused
prepend d waiting = waiting

-- The loops `while (received_total < needed)`, from `needed` bytes missing, by the answers of recv.
unfoldable pub recv_loop : ℕ → Bytes → List RecvAnswer → Reception Bytes
recv_loop needed incoming [] =
    if needed == 0 then got [] (record { incoming = incoming; answers = [] }) else waiting
recv_loop needed incoming (received k ∷ rest) =
    let d = take needed (take k incoming) in
    let more = recv_loop (needed - length d) (drop (length d) incoming) rest in
    if needed == 0
    then got [] (record { incoming = incoming; answers = received k ∷ rest })
    else if length d == 0
    then refused
    else prepend d more
recv_loop needed incoming (closed ∷ rest) =
    if needed == 0
    then got [] (record { incoming = incoming; answers = closed ∷ rest })
    else refused
recv_loop needed incoming (interrupted ∷ rest) =
    let more = recv_loop needed incoming rest in
    if needed == 0
    then got [] (record { incoming = incoming; answers = interrupted ∷ rest })
    else more
recv_loop needed incoming (broken ∷ rest) =
    if needed == 0
    then got [] (record { incoming = incoming; answers = broken ∷ rest })
    else refused

abbrev pub recv_all : ℕ → Receiver Bytes
recv_all needed s = recv_loop needed s.incoming s.answers

abbrev pub max_payload_length : ℕ
max_payload_length = 1048576

unfoldable pub is_valid_payload_length_for_message : ℕ → MessageId → Bool
is_valid_payload_length_for_message payload_length MessageId.have = payload_length == 4
is_valid_payload_length_for_message payload_length MessageId.request = payload_length == 12
is_valid_payload_length_for_message payload_length MessageId.cancel = payload_length == 12
is_valid_payload_length_for_message payload_length MessageId.piece =
    leb 8 payload_length && leb payload_length 16392
is_valid_payload_length_for_message payload_length MessageId.bitfield = true
is_valid_payload_length_for_message payload_length MessageId.invalid = false
is_valid_payload_length_for_message payload_length _ = payload_length == 0

-- The enumerators from 0 on.
abbrev pub message_ids : List MessageId
message_ids =
    MessageId.choke ∷ MessageId.unchoke ∷ MessageId.interested ∷ MessageId.not_interested
    ∷ MessageId.have ∷ MessageId.bitfield ∷ MessageId.request ∷ MessageId.piece ∷ MessageId.cancel
    ∷ MessageId.invalid ∷ []

-- `(enum MessageId)byte`, for a byte below PEER_MESSAGE_INVALID.
abbrev pub message_id_of : ℕ → MessageId
message_id_of byte = get_or message_ids byte MessageId.invalid

abbrev pub message : MessageId → Option Bytes → ℕ → PeerWireMessage
message i p n = record { message_id = i; payload = p; payload_length = n; is_keep_alive = false }

-- The payload of that length; `granted` is whether malloc gives it memory.
unfoldable pub receive_payload : Bool → MessageId → ℕ → Receiver PeerWireMessage
receive_payload granted message_id payload_length =
    if payload_length == 0
    then return (message message_id none 0)
    else if granted
    then (do
      payload_buffer ← recv_all payload_length
      return (message message_id (some payload_buffer) payload_length))
    else refuse

-- The byte of the id, and what follows it.
unfoldable pub receive_body : Bool → ℕ → Receiver PeerWireMessage
unfolding receive_payload is_valid_payload_length_for_message
receive_body granted prefix_length = do
  message_id_buffer ← recv_all 1
  let byte = get_or message_id_buffer 0 0
  let payload_length = prefix_length - 1
  if leb 9 byte
      then refuse
      else if ltb max_payload_length payload_length
          || not (is_valid_payload_length_for_message payload_length (message_id_of byte))
      then refuse
      else receive_payload granted (message_id_of byte) payload_length

-- Whether the message to fill is the empty one.
unfoldable pub is_cleared : PeerWireMessage → Bool
is_cleared m = elim m.message_id [
  | MessageId.invalid ↦ elim m.payload [
    | none ↦ not m.is_keep_alive && m.payload_length == 0
    | some p ↦ false
  ]
  | _ ↦ false
]

unfoldable pub receive_peer_wire_message : Bool → ℤ → PeerWireMessage → Receiver PeerWireMessage
unfolding receive_body is_cleared
receive_peer_wire_message granted (negsuc n) out_message = refuse
receive_peer_wire_message granted (pos n) out_message =
    if is_cleared out_message
    then (do
      b ← recv_all 4
      let prefix_length =
          from_big_endian (get_or b 0 0) (get_or b 1 0) (get_or b 2 0) (get_or b 3 0)
      if prefix_length == 0
          then return (record empty_message { is_keep_alive = true })
          else receive_body granted prefix_length)
    else refuse
