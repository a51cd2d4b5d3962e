-- ===== src/Sync/Stall.antt =====
-- A block numbered 0, which any peer may announce, passes the check for gaps and resets the engine.
use inso_validator.Prelude.{
  ℕ, ◌≤◌, ◌≡◌, refl, ap, ◌∙◌, true, List, [], ◌∷◌, Option, none, some, arith,
}
use inso_validator.Prelude.Dict.{contains, lookup-insert}
use inso_validator.Sync.{L2Block, Engine, is_gap, store, process_block, receive}
use inso_validator.Sync.Order.{IsContiguous, receive_skip, receive_take}

-- The latest block is 0, though the blocks 0 and 1 are stored.
pub record IsStalled (e : Engine) : Type 0 where
  pub at_zero : e.latest_block ≡ 0
  pub has_zero : contains 0 e.blocks ≡ true
  pub has_one : contains 1 e.blocks ≡ true

-- A stalled engine takes no block at all.
process_block_stalled :
    (e : Engine) (block : L2Block) (remote : Option ℕ)
    → IsStalled e
    → process_block e block remote ≡ (e, none)
unfolding process_block is_gap
process_block_stalled e block remote h = ground (arith, h.has_zero, h.has_one, h.at_zero)

receive_stalled :
    (e : Engine) (arrivals : List (L2Block × Option ℕ)) → IsStalled e → receive e arrivals ≡ (e, [])
unfolding receive
receive_stalled e [] h = refl
receive_stalled e ((block, remote) ∷ arrivals) h =
    receive_skip e block remote arrivals (process_block_stalled e block remote h)
    ∙ receive_stalled e arrivals h

store_zero :
    (e : Engine) (block : L2Block) (remote : Option ℕ)
    → IsContiguous e
    → 1 ≤ e.latest_block
    → block.number ≡ 0
    → IsStalled (store e block remote)
unfolding store
store_zero e block remote h synced z = record {
  at_zero = z;
  has_zero = ground (arith, lookup-insert 0 block.number block e.blocks);
  has_one = ground (arith, lookup-insert 1 block.number block e.blocks, h.stored 1);
}

zero_block_taken :
    (e : Engine) (block : L2Block) (remote : Option ℕ)
    → IsContiguous e
    → block.number ≡ 0
    → process_block e block remote ≡ (store e block remote, some block)
unfolding process_block is_gap
zero_block_taken e block remote h z = ground (arith, h.stored 0)

-- Once an engine that has synced at least block 1 processes a block numbered 0, it stops for good: the
-- block is taken and handed to the callback, the latest block is 0, and of all the blocks that arrive
-- afterwards, whatever they are, none changes the state or reaches the callback.
pub zero_block_stalls :
    (e : Engine) (block : L2Block) (remote : Option ℕ) (arrivals : List (L2Block × Option ℕ))
    → IsContiguous e
    → 1 ≤ e.latest_block
    → block.number ≡ 0
    → (receive e ((block, remote) ∷ arrivals) ≡ (store e block remote, block ∷ []))
      × ((store e block remote).latest_block ≡ 0)
zero_block_stalls e block remote arrivals h synced z =
    let stalled : IsStalled (store e block remote) = store_zero e block remote h synced z in
    (
      receive_take e block remote arrivals (store e block remote)
            (zero_block_taken e block remote h z)
          ∙ ap (λ r. (r.0, block ∷ r.1)) (receive_stalled (store e block remote) arrivals stalled),
      stalled.at_zero,
    )
