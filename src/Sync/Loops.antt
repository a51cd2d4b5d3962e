-- ===== src/Sync/Loops.antt =====
-- internal/sync/engine.go: the two goroutines that `Start` launches, the listener and the poller, as
-- steps on the engine that they share. A step is what one of them does under the mutex or in one call
-- of the callback, which runs after the mutex is released. The gauges are set in the step that stores.
pub mod Exact
pub mod Once
pub mod Way
pub mod Reach
mod Tests
use inso_validator.Prelude.{
  ℕ, Bool, true, false, List, [], ◌∷◌, Option, none, some, leb, if◌then◌else◌,
}
use inso_validator.Prelude.Word.{add_u64}
use inso_validator.P2P.{
  Message, BlockAnnounce, MessageType, msg_new_block, msg_attestation, msg_sync_request,
  msg_sync_response, msg_validator_announce, msg_slash_report, msg_above, msg_below,
}
use inso_validator.Sync.{L2Block, Engine, process_block, handle_p2p_block}

-- `p2pBlockListener`: it waits for a message, or is about to call the callback, or has returned.
pub data Listener : Type 0 where
  listening : Listener
  announcing : L2Block → Listener
  returned : Listener

-- `rpcSyncLoop`: it waits for the ticker, or is in the loop of `syncFromRPC` at a number, up to the
-- last one, before the fetch or before the callback, or has returned.
pub data Poller : Type 0 where
  waiting : Poller
  fetching : ℕ → ℕ → Poller
  calling : ℕ → ℕ → L2Block → Poller
  stopped : Poller

-- `handed` is what the callback got, the latest first.
pub record Loops : Type 0 where
  pub engine : Engine
  pub listener : Listener
  pub poller : Poller
  pub handed : List L2Block

-- A message from the channel; the listener's call of the callback; the end of the channel or of the
-- context, as the listener sees it. A tick, with what the sequencer answers for its latest number; the
-- answer to the fetch of a block; the poller's call of the callback; the end of the context, as the
-- poller sees it. Where a block may be stored, the answer that `IsSynced` gets comes with it.
pub data Event : Type 0 where
  received : Message → Option ℕ → Event
  handed_over : Event
  unlistened : Event
  ticked : Option ℕ → Event
  answered : Option L2Block → Option ℕ → Event
  called : Event
  unpolled : Event

-- Without a network the listener returns at once.
unfoldable pub start_loops : Bool → Engine → Loops
start_loops has_network e = record {
  engine = e;
  listener = if has_network then listening else returned;
  poller = waiting;
  handed = [];
}

unfoldable pub is_new_block : MessageType → Bool
is_new_block msg_new_block = true
is_new_block msg_attestation = false
is_new_block msg_sync_request = false
is_new_block msg_sync_response = false
is_new_block msg_validator_announce = false
is_new_block msg_slash_report = false
is_new_block (msg_above n) = false
is_new_block (msg_below n) = false

abbrev pub listener_after : Option L2Block → Listener
listener_after none = listening
listener_after (some b) = announcing b

-- The test of the loop in `syncFromRPC`.
unfoldable pub next_turn : ℕ → ℕ → Poller
next_turn num last = if leb num last then fetching num last else waiting

abbrev pub poller_after : ℕ → ℕ → Option L2Block → Poller
poller_after num last none = next_turn (add_u64 num 1) last
poller_after num last (some b) = calling num last b

-- `syncFromRPC` up to its loop.
unfoldable pub begin_pass : Engine → Option ℕ → Poller
begin_pass e none = waiting
begin_pass e (some last) =
    if leb last e.latest_block then waiting else next_turn (add_u64 e.latest_block 1) last

unfoldable pub listen :
    (List ℕ → Option BlockAnnounce) → Loops → Listener → Message → Option ℕ → Loops
listen decode s listening msg remote =
    if is_new_block msg.type
    then (let (e, taken) = handle_p2p_block decode s.engine msg remote in
        record s { engine = e; listener = listener_after taken })
    else s
listen decode s (announcing b) msg remote = s
listen decode s returned msg remote = s

unfoldable pub call_listener : Loops → Listener → Loops
call_listener s (announcing b) = record s { listener = listening; handed = b ∷ s.handed }
call_listener s listening = s
call_listener s returned = s

unfoldable pub end_listener : Listener → Listener
end_listener listening = returned
end_listener (announcing b) = announcing b
end_listener returned = returned

unfoldable pub tick : Engine → Poller → Option ℕ → Poller
tick e waiting remote = begin_pass e remote
tick e (fetching num last) remote = fetching num last
tick e (calling num last b) remote = calling num last b
tick e stopped remote = stopped

-- A fetch that fails ends the pass.
unfoldable pub use_answer : Loops → Poller → Option L2Block → Option ℕ → Loops
use_answer s (fetching num last) none remote = record s { poller = waiting }
use_answer s (fetching num last) (some b) remote =
    let (e, taken) = process_block s.engine b remote in
    record s { engine = e; poller = poller_after num last taken }
use_answer s waiting block remote = s
use_answer s (calling num last b) block remote = s
use_answer s stopped block remote = s

unfoldable pub call_poller : Loops → Poller → Loops
call_poller s (calling num last b) = record s {
  poller = next_turn (add_u64 num 1) last;
  handed = b ∷ s.handed;
}
call_poller s waiting = s
call_poller s (fetching num last) = s
call_poller s stopped = s

unfoldable pub end_poller : Poller → Poller
end_poller waiting = stopped
end_poller (fetching num last) = fetching num last
end_poller (calling num last b) = calling num last b
end_poller stopped = stopped

module _ (decode : List ℕ → Option BlockAnnounce) where
  -- An event that does not fit where its goroutine stands changes nothing.
  unfoldable pub step : Loops → Event → Loops
  step s (received msg remote) = listen decode s s.listener msg remote
  step s handed_over = call_listener s s.listener
  step s unlistened = record s { listener = end_listener s.listener }
  step s (ticked remote) = record s { poller = tick s.engine s.poller remote }
  step s (answered block remote) = use_answer s s.poller block remote
  step s called = call_poller s s.poller
  step s unpolled = record s { poller = end_poller s.poller }

  unfoldable pub run : Loops → List Event → Loops
  run s [] = s
  run s (e ∷ events) = run (step s e) events
