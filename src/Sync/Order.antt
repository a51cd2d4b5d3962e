-- ===== src/Sync/Order.antt =====
-- Without a block 0 the engine holds the blocks 1 to `latest_block`, and its callback sees them once
-- each, in order.
use inso_validator.Prelude.{
  ℕ, suc, ◌+◌, ◌<◌, ◌^◌, ◌≡◌, ◌≢◌, refl, ap, subst, ◌∙◌, true, false, List, [], ◌∷◌, Option, none,
  some, inl, inr, Bool-cases, arith, All, length, ltb, leb, ◌==◌, if◌then◌else◌, ◌&&◌,
}
use inso_validator.Prelude.Dict.{lookup, contains, lookup-insert}
use inso_validator.Sync.{L2Block, Engine, new_engine, is_gap, store, process_block, receive}

-- Exactly the blocks from 1 to the latest are stored, each under its number.
pub record IsContiguous (e : Engine) : Type 0 where
  pub stored : (k : ℕ) → contains k e.blocks ≡ (ltb 0 k && leb k e.latest_block)
  pub numbered : (k : ℕ) (b : L2Block) → lookup k e.blocks ≡ some b → b.number ≡ k

pub new_engine-IsContiguous : IsContiguous new_engine
unfolding new_engine
new_engine-IsContiguous = record { stored = λ k. ground arith; numbered = λ k b e. absurd (cc) }

-- Both ways in which `processBlock` can go, for a block that is not numbered 0.
pub process_block-cases :
    (e : Engine) (block : L2Block) (remote : Option ℕ)
    → IsContiguous e
    → block.number ≢ 0
    → e.latest_block + 1 < 2 ^ 64
    → process_block e block remote ≡ (
        if block.number == e.latest_block + 1
        then (store e block remote, some block)
        else (e, none))
unfolding process_block is_gap
process_block-cases e block remote h nz fits = ground (arith, h.stored block.number)

pub process_block_next :
    (e : Engine) (block : L2Block) (remote : Option ℕ)
    → IsContiguous e
    → block.number ≢ 0
    → e.latest_block + 1 < 2 ^ 64
    → (block.number == e.latest_block + 1) ≡ true
    → process_block e block remote ≡ (store e block remote, some block)
process_block_next e block remote h nz fits hit =
    rw (process_block-cases e block remote h nz fits, hit) refl

pub process_block_other :
    (e : Engine) (block : L2Block) (remote : Option ℕ)
    → IsContiguous e
    → block.number ≢ 0
    → e.latest_block + 1 < 2 ^ 64
    → (block.number == e.latest_block + 1) ≡ false
    → process_block e block remote ≡ (e, none)
process_block_other e block remote h nz fits miss =
    rw (process_block-cases e block remote h nz fits, miss) refl

pub store-IsContiguous :
    (e : Engine) (block : L2Block) (remote : Option ℕ)
    → IsContiguous e
    → block.number ≡ e.latest_block + 1
    → IsContiguous (store e block remote)
unfolding store
store-IsContiguous e block remote h next = record {
  stored = λ k. ground (arith, lookup-insert k block.number block e.blocks, h.stored k);
  numbered = λ k b q. ground (arith, lookup-insert k block.number block e.blocks, h.numbered k b);
}

pub latest-store :
    (e : Engine) (block : L2Block) (remote : Option ℕ)
    → (store e block remote).latest_block ≡ block.number
unfolding store
latest-store e block remote = refl

module _ (e : Engine) (block : L2Block) (remote : Option ℕ)
    (arrivals : List (L2Block × Option ℕ)) where
  -- A block that is refused leaves no trace.
  pub receive_skip :
      process_block e block remote ≡ (e, none)
      → receive e ((block, remote) ∷ arrivals) ≡ receive e arrivals
  unfolding receive
  receive_skip h =
      ap
        (λ p. (
          (receive p.0 arrivals).0,
          elim p.1 [ none ↦ (receive p.0 arrivals).1 | some b ↦ b ∷ (receive p.0 arrivals).1 ],
        ))
        h

  -- A block that is taken is the first one delivered.
  pub receive_take :
      (e' : Engine)
      → process_block e block remote ≡ (e', some block)
      → receive e ((block, remote) ∷ arrivals)
        ≡ ((receive e' arrivals).0, block ∷ (receive e' arrivals).1)
  unfolding receive
  receive_take e' h =
      ap
        (λ p. (
          (receive p.0 arrivals).0,
          elim p.1 [ none ↦ (receive p.0 arrivals).1 | some b ↦ b ∷ (receive p.0 arrivals).1 ],
        ))
        h

-- The numbers of the blocks count up from `n`.
abbrev pub Consecutive : ℕ → List L2Block → Type 0
Consecutive n [] = Unit
Consecutive n (b ∷ bs) = (b.number ≡ n + 1) × Consecutive (n + 1) bs

abbrev pub IsNumbered : L2Block × Option ℕ → Type 0
IsNumbered a = a.0.number ≢ 0

abbrev pub InOrder : ℕ → Engine × List L2Block → Type 0
InOrder n r = IsContiguous r.0 × Consecutive n r.1 × (r.0.latest_block ≡ n + length r.1)

-- A block that is taken comes first; what follows it counts up from it.
delivered_first :
    (n : ℕ) (block : L2Block) (r : Engine × List L2Block)
    → block.number ≡ n + 1
    → InOrder (n + 1) r
    → InOrder n (r.0, block ∷ r.1)
delivered_first n block r next (c, o, l) = (c, (next, o), omega arith)

after_store :
    (e : Engine) (block : L2Block) (remote : Option ℕ) (arrivals : List (L2Block × Option ℕ))
    → block.number ≡ e.latest_block + 1
    → InOrder (store e block remote).latest_block (receive (store e block remote) arrivals)
    → InOrder (e.latest_block + 1) (receive (store e block remote) arrivals)
after_store e block remote arrivals next i =
    subst (λ n. InOrder n (receive (store e block remote) arrivals))
      (latest-store e block remote ∙ next) i

store_fits :
    (e : Engine) (block : L2Block) (remote : Option ℕ) (arrivals : List (L2Block × Option ℕ))
    → block.number ≡ e.latest_block + 1
    → e.latest_block + suc (length arrivals) < 2 ^ 64
    → (store e block remote).latest_block + length arrivals < 2 ^ 64
store_fits e block remote arrivals next fits = omega (arith, latest-store e block remote)

-- From an engine that holds the blocks 1 to `latest_block`, whatever blocks arrive, in whatever order
-- and however often, as long as none is numbered 0: the engine goes on to hold just the blocks 1 to
-- `latest_block`, each under its number, and the callback gets the new ones, once each, in order. The
-- latest number and the count of the arrivals stay below 2 ^ 64 together.
pub receive-InOrder :
    (e : Engine) (arrivals : List (L2Block × Option ℕ))
    → IsContiguous e
    → All IsNumbered arrivals
    → e.latest_block + length arrivals < 2 ^ 64
    → InOrder e.latest_block (receive e arrivals)
receive-InOrder e [] h a fits = unfold receive in (h, tt, omega arith)
receive-InOrder e ((block, remote) ∷ arrivals) h (nz, a) fits =
    elim (Bool-cases (block.number == e.latest_block + 1)) [
      | inl hit ↦
          let next : block.number ≡ e.latest_block + 1 = ground arith in
          rw
            (receive_take e block remote arrivals (store e block remote)
              (process_block_next e block remote h nz (omega arith) hit))
            (delivered_first e.latest_block block (receive (store e block remote) arrivals) next (
              after_store e block remote arrivals next (
                receive-InOrder (store e block remote) arrivals
                  (store-IsContiguous e block remote h next) a
                  (store_fits e block remote arrivals next fits))))
      | inr miss ↦
          rw
            (receive_skip e block remote arrivals
              (process_block_other e block remote h nz (omega arith) miss))
            (receive-InOrder e arrivals h a (omega arith))
    ]
