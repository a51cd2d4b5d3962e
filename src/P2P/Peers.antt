-- ===== src/P2P/Peers.antt =====
-- internal/p2p/network.go: the table of peers and their connections. A connection is a number; what
-- has been written to it and whether it was closed is kept beside the table. How many bytes a
-- connection takes before a write fails, whether a probe succeeds and the encoding to JSON are arguments.
pub mod Broadcast
pub mod Life
pub mod Run
pub mod Unique
pub mod Gossip
mod Tests
use Prim.Native.String as Text
use Prim.Native.String.{String}
use inso_validator.Prelude.{
  ℕ, suc, ◌+◌, Bool, true, false, List, [], ◌∷◌, ◌++◌, Option, none, some, not, ◌&&◌, leb, ◌==◌,
  if◌then◌else◌, length, take,
}
use inso_validator.Prelude.Int.{ℤ, pos, negsuc}
use inso_validator.Prelude.Names.{Names, put, find, change, change_all}
use inso_validator.Text.{codes, print_int, decimal}
use inso_validator.P2P.{
  MessageType, msg_new_block, msg_attestation, msg_sync_request, msg_sync_response,
  msg_validator_announce, msg_slash_report, msg_above, msg_below,
}
use inso_validator.P2P.Frames.{write_frame}

pub record Peer : Type 0 where
  pub id : String
  pub address : String
  pub version : String
  pub is_active : Bool
  pub latency : ℤ
  pub conn : Option ℕ

pub record WireMessage : Type 0 where
  pub type : ℤ
  pub from : String
  pub payload : List ℕ

pub record Socket : Type 0 where
  pub is_closed : Bool
  pub written : List ℕ

pub record Network : Type 0 where
  pub p2p_port : ℤ
  pub local_id : String
  pub bootnodes : List String
  pub peers : Names Peer
  pub sockets : ℕ → Socket

abbrev pub set_socket : ℕ → Socket → (ℕ → Socket) → ℕ → Socket
set_socket c s sockets i = if i == c then s else sockets i

abbrev pub closed : Socket → Socket
closed s = record s { is_closed = true }

unfoldable pub new_network : ℤ → List String → Network
new_network port bootnodes = record {
  p2p_port = port;
  local_id = Text.◌++◌ "validator-" (decimal port);
  bootnodes = bootnodes;
  peers = [];
  sockets = λ c. record { is_closed = false; written = [] };
}

-- `int(msgType)`
unfoldable pub type_number : MessageType → ℤ
type_number msg_new_block = pos 0
type_number msg_attestation = pos 1
type_number msg_sync_request = pos 2
type_number msg_sync_response = pos 3
type_number msg_validator_announce = pos 4
type_number msg_slash_report = pos 5
type_number (msg_above n) = pos (6 + n)
type_number (msg_below n) = negsuc n

-- The error that a call returns, or none.
pub data Sent : Type 0 where
  sent : Sent
  not_connected : Sent
  not_encoded : Sent
  write_failed : ℕ → Sent

-- `writeFrame` on a connection that takes `room` more bytes.
unfoldable pub send_frame : ℕ → Socket → List ℕ → Socket × Bool
send_frame room s message = if s.is_closed then (s, false) else (
  record s { written = s.written ++ take room (write_frame message) },
  leb (length (write_frame message)) room,
)

-- An active peer with a connection; the others are skipped.
unfoldable pub reachable : Peer → Option ℕ
reachable p = if p.is_active then p.conn else none

unfoldable pub count_active : Names Peer → ℕ
count_active [] = 0
count_active (entry ∷ rest) =
    if entry.1.is_active then suc (count_active rest) else count_active rest

unfoldable pub peer_count : Network → ℕ
peer_count n = count_active n.peers

-- Copies of the peers without their connections.
unfoldable pub copies : Names Peer → List Peer
copies [] = []
copies (entry ∷ rest) = record entry.1 { conn = none } ∷ copies rest

unfoldable pub all_peers : Network → List Peer
all_peers n = copies n.peers

-- The entry for a connection that was accepted or dialled.
unfoldable pub new_peer : String → String → ℕ → Peer
new_peer id address conn = record {
  id = id;
  address = address;
  version = "inso/1.0";
  is_active = true;
  latency = pos 0;
  conn = some conn;
}

-- The entry is put into the table, and the connection is open.
unfoldable pub connect : Network → String → String → ℕ → Network
connect n id address conn = record n {
  peers = put id (new_peer id address conn) n.peers;
  sockets = set_socket conn (record { is_closed = false; written = [] }) n.sockets;
}

-- The deferred function of `readLoop` closes the connection, without the lock, ...
unfoldable pub hang_up : Network → ℕ → Network
hang_up n conn = record n { sockets = set_socket conn (closed (n.sockets conn)) n.sockets }

-- ... and then marks the peer, under the lock.
unfoldable pub mark_inactive : Network → String → Network
mark_inactive n id = record n { peers = change id (λ p. record p { is_active = false }) n.peers }

-- `alive` tells whether a probe of the connection would succeed; on a closed one it fails.
unfoldable pub is_dead : (ℕ → Bool) → (ℕ → Socket) → Peer → Option ℕ
is_dead alive sockets p = elim (reachable p) [
  | none ↦ none
  | some c ↦ if alive c && not (sockets c).is_closed then none else some c
]

unfoldable pub close_dead : (ℕ → Bool) → Names Peer → (ℕ → Socket) → ℕ → Socket
close_dead alive [] sockets = sockets
close_dead alive (entry ∷ rest) sockets =
    close_dead alive rest (elim (is_dead alive sockets entry.1) [
      | none ↦ sockets
      | some c ↦ set_socket c (closed (sockets c)) sockets
    ])

unfoldable pub mark_dead : (ℕ → Bool) → (ℕ → Socket) → Peer → Peer
mark_dead alive sockets p = elim (is_dead alive sockets p) [
  | none ↦ p
  | some _ ↦ record p { is_active = false }
]

unfoldable pub check_peer_liveness : (ℕ → Bool) → Network → Network
check_peer_liveness alive n = record n {
  peers = change_all (mark_dead alive n.sockets) n.peers;
  sockets = close_dead alive n.peers n.sockets;
}

-- `Stop` closes every connection; the entries stay until the read loops end.
unfoldable pub close_all : Names Peer → (ℕ → Socket) → ℕ → Socket
close_all [] sockets = sockets
close_all (entry ∷ rest) sockets =
    close_all rest
      (elim entry.1.conn [ none ↦ sockets | some c ↦ set_socket c (closed (sockets c)) sockets ])

unfoldable pub stop : Network → Network
stop n = record n { sockets = close_all n.peers n.sockets }

module _ (room : ℕ → ℕ) where
  -- The loop of `Broadcast`: a failed write does not end it, and the last error is returned.
  unfoldable pub send_all : List ℕ → Names Peer → (ℕ → Socket) → Sent → (ℕ → Socket) × Sent
  send_all message [] sockets last = (sockets, last)
  send_all message (entry ∷ rest) sockets last = elim (reachable entry.1) [
    | none ↦ send_all message rest sockets last
    | some c ↦
        let (s, done) = send_frame (room c) (sockets c) message in
        send_all message rest (set_socket c s sockets) (if done then last else write_failed c)
  ]

module _ (encode : WireMessage → Option (List ℕ)) (room : ℕ → ℕ) where
  -- `json.Marshal` of the envelope.
  unfoldable pub to_wire : Network → MessageType → List ℕ → Option (List ℕ)
  to_wire n type payload =
      encode (record { type = type_number type; from = n.local_id; payload = payload })

  unfoldable pub broadcast : Network → MessageType → List ℕ → Network × Sent
  broadcast n type payload = elim (to_wire n type payload) [
    | none ↦ (n, not_encoded)
    | some message ↦
        let (sockets, result) = send_all room message n.peers n.sockets sent in
        (record n { sockets = sockets }, result)
  ]

  -- A message to one connection.
  unfoldable pub send_conn : Network → ℕ → MessageType → List ℕ → Network × Sent
  send_conn n c type payload = elim (to_wire n type payload) [
    | none ↦ (n, not_encoded)
    | some message ↦
        let (s, done) = send_frame (room c) (n.sockets c) message in
        (record n { sockets = set_socket c s n.sockets }, if done then sent else write_failed c)
  ]

  unfoldable pub send_to : Network → String → MessageType → List ℕ → Network × Sent
  send_to n id type payload = elim (find id n.peers) [
    | none ↦ (n, not_connected)
    | some p ↦ elim (reachable p) [
      | none ↦ (n, not_connected)
      | some c ↦ send_conn n c type payload
    ]
  ]

  -- The payload tells the port; an error of the write is dropped.
  unfoldable pub announce : Network → ℕ → Network
  announce n c =
      (send_conn n c msg_validator_announce
        (codes "{\"port\":" ++ (print_int n.p2p_port ++ codes "}"))).0

  -- `handleInbound` up to its read loop.
  unfoldable pub handle_inbound : Network → String → ℕ → Network
  handle_inbound n remote conn = announce (connect n (Text.◌++◌ "inbound-" remote) remote conn) conn

  -- What `dialPeer` does once it has a connection, up to the read loop.
  unfoldable pub dialed : Network → String → ℕ → Network
  dialed n addr conn = announce (connect n (Text.◌++◌ "outbound-" addr) addr conn) conn
