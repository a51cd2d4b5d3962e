-- ===== src/P2P.antt =====
-- internal/p2p/network.go and protocol.go: the messages that the engines receive.
pub mod Frames
pub mod Channel
pub mod Peers
pub mod Dial
mod Tests
use inso_validator.Prelude.{ℕ, List}
use Prim.Native.String.{String}
use inso_validator.Prelude.Int.{ℤ}

-- `MessageType`, an int: the named ones in the order of `iota`, the numbers from 6 on and the negative
-- ones from -1 down.
pub data MessageType : Type 0 where
  msg_new_block : MessageType
  msg_attestation : MessageType
  msg_sync_request : MessageType
  msg_sync_response : MessageType
  msg_validator_announce : MessageType
  msg_slash_report : MessageType
  msg_above : ℕ → MessageType
  msg_below : ℕ → MessageType

pub record Message : Type 0 where
  pub type : MessageType
  pub from : String
  pub payload : List ℕ

-- The payload of a new block, from protocol.go.
pub record BlockAnnounce : Type 0 where
  pub number : ℕ
  pub hash : String
  pub parent_hash : String
  pub timestamp : ℕ
  pub state_root : String
  pub gas_used : ℕ
  pub gas_limit : ℕ
  pub tx_count : ℤ
  pub sequencer : String
