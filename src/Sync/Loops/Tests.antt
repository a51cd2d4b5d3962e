-- ===== src/Sync/Loops/Tests.antt =====
-- The two goroutines on concrete runs, where the listener gets a block that the poller asks for.
use inso_validator.Prelude.{ℕ, ◌≤◌, ◌≡◌, refl, true, List, [], ◌∷◌, Option, none, some, All, arith}
use inso_validator.Prelude.Int.{pos}
use inso_validator.P2P.{Message, BlockAnnounce, msg_new_block}
use inso_validator.Sync.{
  L2Block, new_engine, process_block, handle_p2p_block, is_gap, store, update_gauges,
}
use inso_validator.Sync.Order.{new_engine-IsContiguous}
use inso_validator.Sync.Loops.{
  Loops, Event, received, handed_over, ticked, answered, called, start_loops, listen, call_listener,
  tick, begin_pass, next_turn, use_answer, call_poller, is_new_block, step, run,
}
use inso_validator.Sync.Loops.Exact.{IsExact}
use inso_validator.Sync.Loops.Once.{IsNumbered, start_loops-IsExact, started-IsExact}
use inso_validator.Sync.Loops.Reach.{catches_up}

abbrev announced_as : ℕ → BlockAnnounce
announced_as n = record {
  number = n;
  hash = "0xab";
  parent_hash = "0xaa";
  timestamp = 100;
  state_root = "";
  gas_used = 21_000;
  gas_limit = 30_000_000;
  tx_count = pos 1;
  sequencer = "seq";
}

abbrev block : ℕ → L2Block
block n = record {
  number = n;
  hash = "0xab";
  parent_hash = "0xaa";
  timestamp = 100;
  state_root = "";
  gas_used = 21_000;
  gas_limit = 30_000_000;
  tx_count = pos 1;
  sequencer = "seq";
}

abbrev decode : List ℕ → Option BlockAnnounce
decode [] = none
decode (n ∷ bytes) = some (announced_as n)

abbrev message : ℕ → Message
message n = record { type = msg_new_block; from = "peer"; payload = n ∷ [] }

-- Block 1 comes from a peer while the poller asks for it, block 2 from the sequencer, and the poller
-- calls the callback first.
abbrev race : List Event
race =
    received (message 1) none
    ∷ answered (some (block 1)) none
    ∷ answered (some (block 2)) (some 2)
    ∷ called
    ∷ handed_over
    ∷ []

abbrev both : Loops
both = start_loops true new_engine

-- The callback got block 2 and then block 1.
out_of_order : (run decode both (ticked (some 2) ∷ race)).handed ≡ block 1 ∷ block 2 ∷ []
unfolding start_loops new_engine run step listen call_listener tick begin_pass next_turn use_answer
    call_poller is_new_block handle_p2p_block process_block is_gap store update_gauges
out_of_order = refl

numbered : All (IsNumbered decode) race
numbered = (λ a e. ground arith, (λ b e. ground arith, (λ b e. ground arith, (tt, (tt, tt)))))

started-IsExact_example : IsExact 0 (run decode both (ticked (some 2) ∷ race))
unfolding new_engine
started-IsExact_example =
    started-IsExact decode true new_engine (ticked (some 2) ∷ race) new_engine-IsContiguous
      (tt, numbered) (omega arith)

catches_up_example : 2 ≤ (run decode both (ticked (some 2) ∷ race)).engine.latest_block
unfolding start_loops new_engine step listen tick begin_pass next_turn use_answer call_poller
    call_listener is_new_block handle_p2p_block process_block is_gap store update_gauges
catches_up_example =
    catches_up decode 2 0 both race (omega arith)
      (start_loops-IsExact decode true new_engine new_engine-IsContiguous) refl numbered
      (tt, ((block 1, refl, refl), ((block 2, refl, refl), (tt, (tt, tt))))) (omega arith)
      (omega arith)
