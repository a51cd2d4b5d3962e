-- ===== src/Sync/Tests.antt =====
-- The sync engine on concrete inputs.
use inso_validator.Prelude.{ℕ, ◌≡◌, refl, List, [], ◌∷◌, Option, none, some, arith}
use inso_validator.Prelude.Int.{pos}
use inso_validator.Sync.{L2Block, Engine, new_engine, store, receive}
use inso_validator.Sync.Order.{
  InOrder, new_engine-IsContiguous, store-IsContiguous, receive-InOrder,
}
use inso_validator.Sync.Stall.{zero_block_stalls}

abbrev numbered : ℕ → L2Block
numbered n = record {
  number = n;
  hash = "0xab";
  parent_hash = "0xaa";
  timestamp = 100;
  state_root = "";
  gas_used = 21_000;
  gas_limit = 30_000_000;
  tx_count = pos 1;
  sequencer = "seq";
}

abbrev arrivals : List (L2Block × Option ℕ)
arrivals =
    (numbered 2, none) ∷ (numbered 1, some 3) ∷ (numbered 1, none) ∷ (numbered 2, some 2) ∷ []

receive-InOrder_example : InOrder 0 (receive new_engine arrivals)
unfolding new_engine
receive-InOrder_example =
    receive-InOrder new_engine arrivals new_engine-IsContiguous
      (
        λ q. absurd (omega (arith, q)),
        (
          λ q. absurd (omega (arith, q)),
          (λ q. absurd (omega (arith, q)), (λ q. absurd (omega (arith, q)), tt)),
        ),
      )
      (omega arith)

abbrev first_block : Engine
first_block = store new_engine (numbered 1) none

zero_block_stalls_example :
    (receive first_block ((numbered 0, none) ∷ arrivals)
      ≡ (store first_block (numbered 0) none, numbered 0 ∷ []))
    × ((store first_block (numbered 0) none).latest_block ≡ 0)
unfolding new_engine store
zero_block_stalls_example =
    zero_block_stalls first_block (numbered 0) none arrivals
      (store-IsContiguous new_engine (numbered 1) none new_engine-IsContiguous refl) (omega arith)
      refl
