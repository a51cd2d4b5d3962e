-- ===== src/Sync/CatchUp.antt =====
-- The catch-up loop over the sequencer's RPC: it ends, and it reaches the sequencer's latest block if
-- every fetch yields the block that was asked for.
use inso_validator.Prelude.{
  ℕ, zero, suc, ◌+◌, ◌-◌, ◌≤◌, ◌<◌, ◌^◌, ◌≡◌, ◌≢◌, refl, ap, ◌∙◌, true, false, none, some, inl, inr,
  Bool-cases, Option-cases, arith, leb→le, leb, if◌then◌else◌,
}
use inso_validator.Prelude.Word.{add_u64}
use inso_validator.Sync.{
  L2Block, Engine, Sequencer, Loop, done, stuck, store, process_block, catch_up, sync_from_rpc,
}
use inso_validator.Sync.Order.{IsContiguous, store-IsContiguous, process_block_next, latest-store}

module _ (s : Sequencer) (remote : ℕ) (small : remote + 1 < 2 ^ 64) where
  past_end :
      (fuel num : ℕ) (e : Engine)
      → leb num remote ≡ false
      → catch_up (suc fuel) s num remote e ≡ done e
  unfolding catch_up
  past_end fuel num e h = rw (h, catch_up) refl

  fetch_failed :
      (fuel num : ℕ) (e : Engine) → s.block num ≡ none → catch_up (suc fuel) s num remote e ≡ done e
  unfolding catch_up
  fetch_failed fuel num e h = ground (arith, h)

  fetched :
      (fuel num : ℕ) (e : Engine) (b : L2Block)
      → leb num remote ≡ true
      → s.block num ≡ some b
      → catch_up (suc fuel) s num remote e
        ≡ catch_up fuel s (num + 1) remote (process_block e b (s.poll num)).0
  unfolding catch_up
  fetched fuel num e b more got =
      rw (more, got, catch_up)
        (ap (λ n. catch_up fuel s n remote (process_block e b (s.poll num)).0) (ground arith))

  -- One turn per number is enough for the loop to end.
  catch_up_ends :
      (fuel num : ℕ) (e : Engine)
      → num ≤ remote + 1
      → remote + 1 < num + fuel
      → catch_up fuel s num remote e ≢ stuck
  catch_up_ends zero num e low fits = absurd (omega arith)
  catch_up_ends (suc fuel) num e low fits = elim (Bool-cases (leb num remote)) [
    | inr past ↦ rw (past_end fuel num e past) (λ q. absurd (cc))
    | inl more ↦ elim (Option-cases (s.block num)) [
      | inl failed ↦ rw (fetch_failed fuel num e failed) (λ q. absurd (cc))
      | inr (block, got) ↦ rw (fetched fuel num e block more got) (
          catch_up_ends fuel (num + 1) (process_block e block (s.poll num)).0 (ground arith)
            (omega arith))
    ]
  ]

  -- Every fetch up to the latest block yields the block that was asked for.
  abbrev pub Serves : ℕ → Type 0
  Serves latest =
      (k : ℕ) → latest < k → k ≤ remote → (b : L2Block) × (s.block k ≡ some b) × (b.number ≡ k)

  -- The loop is done with the engine at the sequencer's latest block.
  abbrev pub Reaches : Loop → Type 0
  Reaches l = (e : Engine) × (l ≡ done e) × IsContiguous e × (e.latest_block ≡ remote)

  catch_up-Reaches :
      (fuel num : ℕ) (e : Engine)
      → IsContiguous e
      → num ≡ e.latest_block + 1
      → e.latest_block ≤ remote
      → remote < e.latest_block + fuel
      → Serves e.latest_block
      → Reaches (catch_up fuel s num remote e)
  catch_up-Reaches zero num e h next low fits serves = absurd (omega arith)
  catch_up-Reaches (suc fuel) num e h next low fits serves = elim (Bool-cases (leb num remote)) [
    | inr past ↦ rw (past_end fuel num e past) (e, refl, h, ground arith)
    | inl more ↦
        let (b, got, numbered) = serves num (omega arith) (leb→le num remote more) in
        let e' : Engine = store e b (s.poll num) in
        let at : e'.latest_block ≡ num = latest-store e b (s.poll num) ∙ numbered in
        rw
          (
            fetched fuel num e b more got,
            process_block_next e b (s.poll num) h (omega arith) (omega arith) (ground arith),
          )
          (catch_up-Reaches fuel (num + 1) e'
            (store-IsContiguous e b (s.poll num) h (numbered ∙ next)) (omega arith)
            (omega (arith, leb→le num remote more)) (omega arith)
            (λ k above. serves k (omega arith)))
  ]

remote_known :
    (fuel : ℕ) (s : Sequencer) (remote : ℕ) (e : Engine)
    → s.block_number ≡ some remote
    → sync_from_rpc fuel s e ≡ (
        if leb remote e.latest_block
        then done e
        else catch_up fuel s (add_u64 e.latest_block 1) remote e)
unfolding sync_from_rpc
remote_known fuel s remote e known =
    ap
      (λ o. elim o [
        | none ↦ done e
        | some r ↦
            if leb r e.latest_block then done e else catch_up fuel s (add_u64 e.latest_block 1) r e
      ])
      known

-- Catching up from the sequencer ends, whatever the sequencer answers, with fuel for one turn per
-- missing block and one more, if the latest block's number is not the last of `uint64`.
pub sync_from_rpc_ends :
    (s : Sequencer) (remote : ℕ) (e : Engine)
    → s.block_number ≡ some remote
    → remote + 1 < 2 ^ 64
    → sync_from_rpc (remote + 2 - e.latest_block) s e ≢ stuck
sync_from_rpc_ends s remote e known small =
    rw (remote_known (remote + 2 - e.latest_block) s remote e known)
      elim (Bool-cases (leb remote e.latest_block)) [
        | inl synced ↦ rw synced (λ q. absurd (cc))
        | inr behind ↦ rw behind (
            catch_up_ends s remote small (remote + 2 - e.latest_block) (add_u64 e.latest_block 1) e
              (ground arith) (ground arith))
      ]

-- From an engine that holds just the blocks 1 to `latest_block`, catching up with a sequencer that is
-- not behind and that yields every block up to its latest when asked for it ends, with fuel for one
-- turn per missing block and one more, and the engine then holds just the blocks 1 to the sequencer's
-- latest, each under its number.
pub sync_from_rpc_reaches :
    (s : Sequencer) (remote : ℕ) (e : Engine)
    → s.block_number ≡ some remote
    → remote + 1 < 2 ^ 64
    → IsContiguous e
    → e.latest_block ≤ remote
    → ((k : ℕ)
        → e.latest_block < k
        → k ≤ remote
        → (b : L2Block) × (s.block k ≡ some b) × (b.number ≡ k))
    → (e' : Engine) × (sync_from_rpc (remote + 2 - e.latest_block) s e ≡ done e')
      × IsContiguous e'
      × (e'.latest_block ≡ remote)
sync_from_rpc_reaches s remote e known small h low serves =
    rw (remote_known (remote + 2 - e.latest_block) s remote e known)
      elim (Bool-cases (leb remote e.latest_block)) [
        | inl synced ↦ rw synced (e, refl, h, ground arith)
        | inr behind ↦ rw behind (
            catch_up-Reaches s remote small (remote + 2 - e.latest_block) (add_u64 e.latest_block 1)
              e h (ground arith) low (omega arith) serves)
      ]
