-- ===== src/Node/Votes.antt =====
-- The node votes at most once per block number.
use inso_validator.Prelude.{
  ℕ, ◌+◌, ◌^◌, ◌<◌, ◌≤◌, ◌≡◌, ◌≢◌, refl, true, false, List, [], ◌∷◌, Option, none, some, ◌==◌,
  arith, inl, inr, ◌⊎◌, Bool-cases, All, length, if◌then◌else◌, ap, ◌∙◌, length-append,
}
use inso_validator.Prelude.Dict.{Dict, lookup}
use inso_validator.External.{Hashing, Signing}
use inso_validator.Sync as Sync
use inso_validator.Sync.{L2Block, process_block, store}
use inso_validator.Sync.Order.{
  IsContiguous, process_block_next, process_block_other, store-IsContiguous, latest-store,
  new_engine-IsContiguous,
}
use inso_validator.Verification as Verification
use inso_validator.Verification.{verify_block}
use inso_validator.Consensus as Consensus
use inso_validator.Consensus.{Attestation, attest_block, attestations_of}
use inso_validator.Consensus.Finality.{attestations_of-attest}
use inso_validator.Node.{Node, on_new_block, deliver, run}

-- The engine holds the blocks 1 to `latest_block`; only those have votes, at most one each.
pub record IsSingle (node : Node) : Type 0 where
  pub contiguous : IsContiguous node.sync
  pub once : (n : ℕ) → length (attestations_of node.consensus n) ≤ 1
  pub none_above :
      (n : ℕ) → node.sync.latest_block < n → length (attestations_of node.consensus n) ≡ 0

-- A node after one more block.
abbrev pub Advances : Node → Node → Type 0
Advances before node = IsSingle node × (node.sync.latest_block ≤ before.sync.latest_block + 1)

abbrev pub HasNumber : L2Block × Option ℕ × ℕ → Type 0
HasNumber a = a.0.number ≢ 0

-- A node that has no block yet.
abbrev pub fresh : ℕ → Consensus.Engine → Node
fresh root consensus = record {
  sync = Sync.new_engine;
  verifier = record { state_root = root };
  consensus = consensus;
}

no_votes :
    (consensus : Consensus.Engine) (n : ℕ)
    → consensus.attestations ≡ []
    → length (attestations_of consensus n) ≡ 0
unfolding attestations_of
no_votes consensus n none_yet =
    ap
      (λ (d : Dict (List Attestation)). length (elim (lookup n d) [ none ↦ [] | some atts ↦ atts ]))
      none_yet

pub fresh-IsSingle :
    (root : ℕ) (consensus : Consensus.Engine)
    → consensus.attestations ≡ []
    → IsSingle (fresh root consensus)
fresh-IsSingle root consensus none_yet = record {
  contiguous = new_engine-IsContiguous;
  once = λ n. omega (arith, no_votes consensus n none_yet);
  none_above = λ n above. no_votes consensus n none_yet;
}

module _ (h : Hashing) (c : Signing) where
  valid_case :
      (node : Node) (block : L2Block) (now : ℕ)
      → (verify_block h node.verifier block).1.valid ≡ true
      → on_new_block h c node block now ≡ record node {
        verifier = (verify_block h node.verifier block).0;
        consensus = (attest_block c node.consensus block.number (h.hex_to_hash block.hash) now).0;
      }
  unfolding on_new_block
  valid_case node block now valid = rw valid refl

  invalid_case :
      (node : Node) (block : L2Block) (now : ℕ)
      → (verify_block h node.verifier block).1.valid ≡ false
      → on_new_block h c node block now
        ≡ record node { verifier = (verify_block h node.verifier block).0 }
  unfolding on_new_block
  invalid_case node block now invalid = rw invalid refl

  taken_case :
      (node : Node) (block : L2Block) (remote : Option ℕ) (now : ℕ) (sync : Sync.Engine)
      → process_block node.sync block remote ≡ (sync, some block)
      → deliver h c node block remote now ≡ on_new_block h c (record node { sync = sync }) block now
  unfolding deliver
  taken_case node block remote now sync e =
      ap
        (λ p. elim p.1 [
          | none ↦ record node { sync = p.0 }
          | some b ↦ on_new_block h c (record node { sync = p.0 }) b now
        ])
        e

  refused_case :
      (node : Node) (block : L2Block) (remote : Option ℕ) (now : ℕ)
      → process_block node.sync block remote ≡ (node.sync, none)
      → deliver h c node block remote now ≡ node
  unfolding deliver
  refused_case node block remote now e =
      ap
        (λ p. elim p.1 [
          | none ↦ record node { sync = p.0 }
          | some b ↦ on_new_block h c (record node { sync = p.0 }) b now
        ])
        e

  votes :
      (node : Node) (block : L2Block) (hash now n : ℕ)
      → length (attestations_of (attest_block c node.consensus block.number hash now).0 n) ≡ (
          if n == block.number
          then length (attestations_of node.consensus n) + 1
          else length (attestations_of node.consensus n))
  votes node block hash now n = elim (Bool-cases (n == block.number)) [
    | inl same ↦
        ap length (attestations_of-attest c n node.consensus block.number hash now)
        ∙ rw same (length-append (attestations_of node.consensus n) _)
    | inr other ↦
        ap length (attestations_of-attest c n node.consensus block.number hash now) ∙ rw other refl
  ]

  -- Storing the next block leaves no votes above it.
  stored-IsSingle :
      (node : Node) (block : L2Block) (remote : Option ℕ) (consensus : Consensus.Engine)
      (verifier : Verification.Engine)
      → IsSingle node
      → block.number ≡ node.sync.latest_block + 1
      → ((n : ℕ)
          → length (attestations_of consensus n) ≤ (
              if n == block.number
              then length (attestations_of node.consensus n) + 1
              else length (attestations_of node.consensus n)))
      → Advances node (record node {
        sync = store node.sync block remote;
        consensus = consensus;
        verifier = verifier;
      })
  stored-IsSingle node block remote consensus verifier s next votes_at = (
    record {
      contiguous = store-IsContiguous node.sync block remote s.contiguous next;
      once = λ n. ground (arith, votes_at n, s.once n, s.none_above n);
      none_above = λ n above.
          let higher : block.number < n = rw (latest-store node.sync block remote) at above in
          ground (arith, votes_at n, s.none_above n);
    },
    omega (arith, latest-store node.sync block remote),
  )

  on_new_block-IsSingle :
      (node : Node) (block : L2Block) (remote : Option ℕ) (now : ℕ)
      → IsSingle node
      → block.number ≡ node.sync.latest_block + 1
      → Advances node
          (on_new_block h c (record node { sync = store node.sync block remote }) block now)
  on_new_block-IsSingle node block remote now s next =
      let stored : Node = record node { sync = store node.sync block remote } in
      let checked = verify_block h node.verifier block in
      elim (Bool-cases checked.1.valid) [
        | inl valid ↦ rw (valid_case stored block now valid) (
            stored-IsSingle node block remote _ checked.0 s next
              (λ n. omega (arith, votes node block (h.hex_to_hash block.hash) now n)))
        | inr invalid ↦
            rw (invalid_case stored block now invalid) (
              stored-IsSingle node block remote node.consensus checked.0 s next (λ n. ground arith))
      ]

  pub deliver-IsSingle :
      (node : Node) (block : L2Block) (remote : Option ℕ) (now : ℕ)
      → block.number ≢ 0
      → node.sync.latest_block + 1 < 2 ^ 64
      → IsSingle node
      → Advances node (deliver h c node block remote now)
  deliver-IsSingle node block remote now nz fits s =
      elim (Bool-cases (block.number == node.sync.latest_block + 1)) [
        | inl hit ↦
            rw
              (taken_case node block remote now (store node.sync block remote)
                (process_block_next node.sync block remote s.contiguous nz fits hit))
              (on_new_block-IsSingle node block remote now s (ground arith))
        | inr miss ↦
            rw
              (refused_case node block remote now
                (process_block_other node.sync block remote s.contiguous nz fits miss))
              (s, omega arith)
      ]

  run-IsSingle :
      (node : Node) (arrivals : List (L2Block × Option ℕ × ℕ))
      → All HasNumber arrivals
      → node.sync.latest_block + length arrivals < 2 ^ 64
      → IsSingle node
      → IsSingle (run h c node arrivals)
  unfolding run
  run-IsSingle node [] a fits s = s
  run-IsSingle node ((block, remote, now) ∷ arrivals) (nz, a) fits s =
      let (s', near) = deliver-IsSingle node block remote now nz (omega arith) s in
      run-IsSingle (deliver h c node block remote now) arrivals a (omega (arith, near)) s'

  -- A node that starts with no block and no vote attests at most once per block number, and only
  -- numbers up to its latest block, whatever blocks reach it, with whatever hashes, in whatever order
  -- and however often, as long as none is numbered 0.
  pub votes_once :
      (root : ℕ) (consensus : Consensus.Engine) (arrivals : List (L2Block × Option ℕ × ℕ)) (n : ℕ)
      → consensus.attestations ≡ []
      → All HasNumber arrivals
      → length arrivals < 2 ^ 64
      → let end = run h c (fresh root consensus) arrivals in
        (length (attestations_of end.consensus n) ≤ 1)
        × ((length (attestations_of end.consensus n) ≡ 0) ⊎ (n ≤ end.sync.latest_block))
  votes_once root consensus arrivals n none_yet nz fits =
      let s =
        run-IsSingle (fresh root consensus) arrivals nz (unfold Sync.new_engine in omega arith)
          (fresh-IsSingle root consensus none_yet) in
      (s.once n, ground (arith, s.none_above n))
