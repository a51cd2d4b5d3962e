-- ===== src/Lib.antt =====
-- A model of the InSo validator: the node that follows an L2 chain, verifies and attests its blocks,
-- and keeps the stakes and the reputation of validators.
--
-- The parts and how they interact. The network hands messages to the sync engine and the consensus
-- engine. The sync engine keeps the chain of blocks, from announcements and from the sequencer's RPC,
-- and hands each new block to a callback, which verifies its state root and has the consensus engine
-- attest it. The consensus engine weighs validators by stake and by the score that the reputation
-- manager computes, and tells which blocks are final. The staking manager keeps stakes apart from it.
-- The RPC server answers requests from these engines and can have a block verified again.
--
-- Files and code (paths from the repository's root):
--   Staking, Staking/*        internal/staking/manager.go: Register, Delegate, Slash, TotalStaked, ...
--   Reputation, Reputation/*  internal/reputation/manager.go: the Record methods, ComputeSovereignty
--                             (Reputation/Score), ApplyDecay
--   Sync, Sync/*              internal/sync/engine.go: processBlock, handleP2PBlock, syncFromRPC
--   Sync/Loops, Sync/Loops/*  internal/sync/engine.go: Start, p2pBlockListener and rpcSyncLoop, whose steps
--                             interleave on the engine
--   Verification              internal/verification/engine.go: VerifyBlock
--   Verification/Lanes, Receipts, Adaptive, Fetch
--                             internal/verification/features.go
--   Consensus, Consensus/*    internal/consensus/engine.go: RegisterValidator, AttestBlock, IsFinalized,
--                             VerifyAttestation, the handlers of messages
--   P2P, P2P/Frames, Channel  internal/p2p/network.go and protocol.go: the messages, writeFrame, readFrame,
--                             readLoop and its channel
--   P2P/Peers, P2P/Peers/*, P2P/Dial
--                             internal/p2p/network.go: the table of peers, Broadcast, SendTo, handleInbound,
--                             checkPeerLiveness, Stop; dialPeer
--   Sync/Fetch, Sync/Fetch/*  internal/sync/engine.go: rpcCall, fetchLatestBlockNumber, fetchBlock, bytesReader
--   Rpc, Rpc/*                internal/rpc/server.go: handle with its methods, the parsing of parameters,
--                             handleHealth, handleReady
--   Metrics, Metrics/*        internal/metrics/metrics.go: the values and handleMetrics
--   Config                    internal/config/config.go: the types, DefaultConfig, Load
--   Node, Node/*              cmd/validator/main.go: the callback for new blocks, the initial stake; Node/Served,
--                             the RPC server on the node's engines; Node/Startup, main up to the running
--                             services
--   Text, Text/Laws           Go's numerals: %d, %x, strconv, math/big
--   External                  parameters: SHA-256, Keccak-256, secp256k1 signatures, parsing and printing
--                             of hashes
--   Float, Bytes, Prelude     Go itself: float64 and big.Float, byte strings, integers, maps
-- A method with a pointer receiver is a function from the state to the state and the result. A map is
-- an association list in some order of iteration; each mutex makes a method one step. A float64 is an
-- exact count of 2 ^ -1074 with infinities and NaN, and every operation rounds once, to nearest even;
-- the two zeros are one value. Error strings are constructors with the values that they print.
--
-- Fuel and bounds. Rounding doubles its unit at most 2046 times, which takes a value below overflow to
-- 53 bits, 2098 times for a product and 1074 times for a quotient of big.Floats. The
-- catch-up loop over the sequencer's RPC has one unit of fuel per missing block and one more, the read
-- loop of a connection one per byte and one more. Integers of 64 bits wrap where Go wraps them.
--
-- The numerals of 64-bit integers have at most 20 decimal or 16 hexadecimal digits, so the printing
-- functions, which recur on that count, print every one of them.
--
-- Arguments of the definitions: the encoding and decoding of JSON and YAML, the exchange of bytes with
-- the sequencer, how many bytes a connection takes before a write fails, whether a probe of it succeeds,
-- what a dial yields, the file and the environment. A reply of the RPC server stands for its JSON. The
-- one record of metrics that the parts share is kept in parts, those that an engine writes with the
-- engine, and Node/Served puts it together. The order of a range over a map, where the result depends
-- on it, and whether a port can be listened on are arguments too.
--
-- Not modelled: calls of VerifyBlock that overlap, whose two steps are definitions of their own; HTTP,
-- JSON and YAML themselves; the scheduling of goroutines outside Sync/Loops and P2P/Peers/Run, tickers
-- and deadlines; log lines; the payloads of internal/p2p/protocol.go that the program never decodes.
pub mod Prelude
pub mod Float
pub mod Bytes
pub mod Text
pub mod External
pub mod Config
pub mod Metrics
pub mod Rpc
pub mod Verification
pub mod Staking
pub mod Reputation
pub mod Sync
pub mod P2P
pub mod Consensus
pub mod Node
