-- ===== src/Verification/Chain.antt =====
-- The engine against a description of the chains that it is meant to accept.
use text.Mathlib.TextEquality.{eq_iff}
use inso_validator.Prelude.{
  ℕ, ◌≡◌, ◌≢◌, ◌↔◌, ◌⊎◌, refl, sym, ap, subst, ◌∙◌, Bool, true, ◌&&◌, List, [], ◌∷◌, if◌then◌else◌,
  arith,
}
use inso_validator.External.{Hashing}
use inso_validator.Sync.{L2Block}
use inso_validator.Verification.{
  Engine, Result, no_fault, root_preimage, compute_expected_state_root, is_mismatch, verify_block,
  judge, settle,
}

abbrev pub all_valid : List Result → Bool
all_valid [] = true
all_valid (r ∷ rs) = r.valid && all_valid rs

module _ (h : Hashing) where
  -- The block states no root, or the given one.
  abbrev pub Declares : L2Block → ℕ → Type 0
  Declares b root = (b.state_root ≡ "") ⊎ (b.state_root ≡ h.hash_hex root)

  -- The blocks, none numbered 0, lead from the first root to the second, each root being the hash over
  -- the one before it, and state it or no root.
  pub data Chain : ℕ → List L2Block → ℕ → Type 0 where
    start : (root : ℕ) → Chain root [] root
    extend :
        (root : ℕ) (b : L2Block) (bs : List L2Block) (last : ℕ)
        → b.number ≢ 0
        → Declares b (h.sha256 (root_preimage h root b))
        → Chain (h.sha256 (root_preimage h root b)) bs last
        → Chain root (b ∷ bs) last

  -- The engine verifies one block after the other.
  unfoldable pub run : Engine → List L2Block → Engine × List Result
  run e [] = (e, [])
  run e (b ∷ bs) = let (e', r) = verify_block h e b in let (e'', rs) = run e' bs in (e'', r ∷ rs)

  -- A block is found valid just if it is not numbered 0 and states no root or the derived root; the
  -- engine's root moves to the derived root just then, and stays otherwise; the result carries the
  -- block's number, and an error just if the block is not valid.
  pub verify_block_lem :
      (e : Engine) (b : L2Block)
      → (((verify_block h e b).1.valid ≡ true)
          ↔ ((b.number ≢ 0) × Declares b (compute_expected_state_root h e b)))
        × ((verify_block h e b).0.state_root ≡ (
            if (verify_block h e b).1.valid
            then compute_expected_state_root h e b
            else e.state_root))
        × (((verify_block h e b).1.valid ≡ true) ↔ ((verify_block h e b).1.error ≡ no_fault))
        × ((verify_block h e b).1.block_number ≡ b.number)
  unfolding verify_block judge settle is_mismatch
  verify_block_lem e b = ground (
    arith,
    eq_iff b.state_root "",
    eq_iff b.state_root (h.hash_hex (compute_expected_state_root h e b)),
  )

  and_parts : (a b : Bool) → (a && b) ≡ true → (a ≡ true) × (b ≡ true)
  and_parts a b e = ground arith

  moved :
      (e : Engine) (b : L2Block)
      → (verify_block h e b).1.valid ≡ true
      → (verify_block h e b).0.state_root ≡ h.sha256 (root_preimage h e.state_root b)
  unfolding compute_expected_state_root
  moved e b valid =
      (verify_block_lem e b).1
      ∙ ap (λ v. if v then h.sha256 (root_preimage h e.state_root b) else e.state_root) valid

  run-Chain :
      (e : Engine) (bs : List L2Block)
      → all_valid (run e bs).1 ≡ true
      → Chain e.state_root bs (run e bs).0.state_root
  unfolding run compute_expected_state_root
  run-Chain e [] valid = start e.state_root
  run-Chain e (b ∷ bs) valid =
      let (first, later) = and_parts (verify_block h e b).1.valid _ valid in
      let (nonzero, declares) = (verify_block_lem e b).0.0 first in
      extend e.state_root b bs _ nonzero declares (
        subst (λ root. Chain root bs (run (verify_block h e b).0 bs).0.state_root) (moved e b first)
          (run-Chain (verify_block h e b).0 bs later))

  chain_valid :
      (e : Engine) (root : ℕ) (bs : List L2Block) (last : ℕ)
      → Chain root bs last
      → e.state_root ≡ root
      → (all_valid (run e bs).1 ≡ true) × ((run e bs).0.state_root ≡ last)
  unfolding run compute_expected_state_root
  chain_valid e root [] last (start _) same = (refl, same)
  chain_valid e root (b ∷ bs) last (extend _ _ _ _ nonzero declares rest) same =
      let first =
        (verify_block_lem e b).0.1
          (nonzero, subst (λ x. Declares b (h.sha256 (root_preimage h x b))) (sym same) declares) in
      let (later, end) =
        chain_valid (verify_block h e b).0 _ bs last rest
          (moved e b first ∙ ap (λ x. h.sha256 (root_preimage h x b)) same) in
      (rw (first, later) refl, end)

  -- The engine accepts every block of a sequence, and ends at a given root, just if the blocks form a
  -- chain from the engine's root to that root.
  pub run_iff :
      (e : Engine) (bs : List L2Block) (last : ℕ)
      → ((all_valid (run e bs).1 ≡ true) × ((run e bs).0.state_root ≡ last))
        ↔ Chain e.state_root bs last
  run_iff e bs last = (
    λ p. subst (λ x. Chain e.state_root bs x) p.1 (run-Chain e bs p.0),
    λ c. chain_valid e e.state_root bs last c refl,
  )
