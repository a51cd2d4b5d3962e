-- ===== src/Sync.antt =====
-- internal/sync/engine.go: the blocks received so far, from gossip and from the sequencer's RPC.
-- What the sequencer answers is an argument. The mutex makes the update of the map one step.
pub mod Order
pub mod Stall
pub mod CatchUp
pub mod Fetch
pub mod Loops
mod Tests
use inso_validator.Prelude.{
  ℕ, zero, suc, ◌+◌, ◌-◌, ◌≤◌, Bool, true, false, not, ◌&&◌, List, [], ◌∷◌, ◌++◌, Option, none,
  some, ltb, leb, ◌==◌, if◌then◌else◌,
}
use Prim.Native.String.{String}
use inso_validator.Prelude.Int.{ℤ}
use inso_validator.Prelude.Dict.{Dict, lookup, insert, contains}
use inso_validator.Prelude.Word.{add_u64}
use inso_validator.P2P.{Message, BlockAnnounce}

pub record L2Block : Type 0 where
  pub number : ℕ
  pub hash : String
  pub parent_hash : String
  pub timestamp : ℕ
  pub state_root : String
  pub gas_used : ℕ
  pub gas_limit : ℕ
  pub tx_count : ℤ
  pub sequencer : String

-- The gauges that the engine sets once a collector is wired in.
pub record Gauges : Type 0 where
  pub synced_block : ℕ
  pub is_synced : ℕ

pub record Engine : Type 0 where
  pub latest_block : ℕ
  pub blocks : Dict L2Block
  pub metrics : Option Gauges

unfoldable pub new_engine : Engine
new_engine = record { latest_block = 0; blocks = []; metrics = none }

unfoldable pub set_metrics : Engine → Gauges → Engine
set_metrics e g = record e { metrics = some g }

unfoldable pub get_block : Engine → ℕ → Option L2Block
get_block e num = lookup num e.blocks

unfoldable pub latest_block_of : Engine → ℕ
latest_block_of e = e.latest_block

-- `remote` is the sequencer's latest block number, `none` if the call fails.
unfoldable pub is_synced : Engine → Option ℕ → Bool
is_synced e none = false
is_synced e (some latest) = leb latest e.latest_block

unfoldable pub update_gauges : Engine → ℕ → Option ℕ → Option Gauges
update_gauges e number remote = elim e.metrics [
  | none ↦ none
  | some g ↦
      some (record { synced_block = number; is_synced = if is_synced e remote then 1 else 0 })
]

-- A block whose number is above 1 must be the next one.
unfoldable pub is_gap : Engine → ℕ → Bool
is_gap e number = ltb 1 number && not (number == add_u64 e.latest_block 1)

unfoldable pub store : Engine → L2Block → Option ℕ → Engine
store e block remote =
    let stored : Engine = record e {
      blocks = insert block.number block e.blocks;
      latest_block = block.number;
    } in
    record stored { metrics = update_gauges stored block.number remote }

-- The new state, and the block that is handed to the callback, if it was taken.
unfoldable pub process_block : Engine → L2Block → Option ℕ → Engine × Option L2Block
process_block e block remote =
    if contains block.number e.blocks
    then (e, none)
    else if is_gap e block.number
    then (e, none)
    else (store e block remote, some block)

-- `decode` is `DecodeBlockAnnounce`, `none` for a payload that is no announcement.
unfoldable pub handle_p2p_block :
    (List ℕ → Option BlockAnnounce) → Engine → Message → Option ℕ → Engine × Option L2Block
handle_p2p_block decode e msg remote = elim (decode msg.payload) [
  | none ↦ (e, none)
  | some a ↦ process_block e (announced a) remote
]
  where
    announced : BlockAnnounce → L2Block
    announced a = record {
      number = a.number;
      hash = a.hash;
      parent_hash = a.parent_hash;
      timestamp = a.timestamp;
      state_root = a.state_root;
      gas_used = a.gas_used;
      gas_limit = a.gas_limit;
      tx_count = a.tx_count;
      sequencer = a.sequencer;
    }

-- A sequence of received blocks, each with the answer that `IsSynced` gets while it is processed; the
-- blocks handed to the callback, in order.
unfoldable pub receive : Engine → List (L2Block × Option ℕ) → Engine × List L2Block
receive e [] = (e, [])
receive e ((block, remote) ∷ arrivals) =
    let (e', taken) = process_block e block remote in
    let (e'', delivered) = receive e' arrivals in
    (e'', elim taken [ none ↦ delivered | some b ↦ b ∷ delivered ])

-- What the sequencer answers during one catch-up.
pub record Sequencer : Type 0 where
  pub block_number : Option ℕ
  pub block : ℕ → Option L2Block
  pub poll : ℕ → Option ℕ

-- How a loop ends: by its test or a failed fetch, or, which is no Go value, with its fuel used up.
pub data Loop : Type 0 where
  done : Engine → Loop
  stuck : Loop

-- `for num := ...; num <= remoteLatest; num++`
unfoldable pub catch_up : ℕ → Sequencer → ℕ → ℕ → Engine → Loop
catch_up zero s num remote e = stuck
catch_up (suc fuel) s num remote e = elim (leb num remote) [
  | false ↦ done e
  | true ↦ elim (s.block num) [
    | none ↦ done e
    | some block ↦ catch_up fuel s (add_u64 num 1) remote (process_block e block (s.poll num)).0
  ]
]

unfoldable pub sync_from_rpc : ℕ → Sequencer → Engine → Loop
sync_from_rpc fuel s e = elim s.block_number [
  | none ↦ done e
  | some remote ↦
      if leb remote e.latest_block
      then done e
      else catch_up fuel s (add_u64 e.latest_block 1) remote e
]
