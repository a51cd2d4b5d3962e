-- ===== src/Reputation/Effects.antt =====
-- What single calls of the reputation manager do, and to whom.
use mathlib.Core.Option
use inso_validator.Prelude.{
  ℕ, zero, suc, ◌+◌, ◌-◌, ◌≤◌, ◌<◌, ◌≡◌, ◌≢◌, ◌^◌, ◌*◌, ◌/◌, refl, true, [], ◌∷◌, none, some, inl,
  inr, Option-cases, arith,
}
use Prim.Native.Nat.{min}
use inso_validator.Prelude.Dict.{Dict, lookup, lookup-insert_self, lookup-insert_ne}
use inso_validator.Prelude.Word.{add_u64, mul_u64, IsU64}
use inso_validator.Float.{Float, lt}
use inso_validator.Float.Order.{IsNonneg}
use inso_validator.Reputation.{
  XpConfig, ValidatorReputation, Manager, add_xp, remove_xp, update_uptime, update,
  record_attestation, record_missed_block, record_slash, record_uptime_check, compute_sovereignty,
  decayed, decay_all, apply_decay,
}
use inso_validator.Reputation.History.Entry.{decayed-le, share_le}
use inso_validator.Reputation.Score.{one, score_tier}
use inso_validator.Reputation.Score.Bounds.{score_bounds}

update_self :
    (m : Manager) (addr : ℕ) (f : ValidatorReputation → ValidatorReputation)
    (rep : ValidatorReputation)
    → lookup addr m.reps ≡ some rep
    → lookup addr (update m addr f).reps ≡ some (f rep)
update_self m addr f rep e = rw (e, update) (lookup-insert_self addr (f rep) m.reps)

update_other :
    (m : Manager) (addr other : ℕ) (f : ValidatorReputation → ValidatorReputation)
    → other ≢ addr
    → lookup other (update m addr f).reps ≡ lookup other m.reps
update_other m addr other f ne = elim (Option-cases (lookup addr m.reps)) [
  | inl e ↦ rw (e, update) refl
  | inr (rep, e) ↦ rw (e, update) (lookup-insert_ne other addr (f rep) m.reps ne)
]

update_unknown :
    (m : Manager) (addr : ℕ) (f : ValidatorReputation → ValidatorReputation)
    → lookup addr m.reps ≡ none
    → update m addr f ≡ m
update_unknown m addr f e = rw (e, update) refl

-- The call has replaced the entry of one validator and no other.
abbrev pub Sets : Manager → Manager → ℕ → ValidatorReputation → Type 0
Sets m m' addr rep =
    (lookup addr m'.reps ≡ some rep) × ((w : ℕ) → w ≢ addr → lookup w m'.reps ≡ lookup w m.reps)

update-Sets :
    (m : Manager) (addr : ℕ) (f : ValidatorReputation → ValidatorReputation)
    (rep rep' : ValidatorReputation)
    → lookup addr m.reps ≡ some rep
    → f rep ≡ rep'
    → Sets m (update m addr f) addr rep'
update-Sets m addr f rep rep' e same =
    (rw (← same) (update_self m addr f rep e), λ w ne. update_other m addr w f ne)

add_xp_saturates :
    (cfg : XpConfig) (rep : ValidatorReputation) (amount : ℕ)
    → cfg.max_xp + amount < 2 ^ 64
    → rep.xp ≤ cfg.max_xp
    → add_xp cfg rep amount ≡ record rep { xp = min (rep.xp + amount) cfg.max_xp }
unfolding add_xp
add_xp_saturates cfg rep amount fits h =
    let exact : add_u64 rep.xp amount ≡ rep.xp + amount = omega arith in rw exact (ground arith)

remove_xp_monus :
    (rep : ValidatorReputation) (amount : ℕ)
    → remove_xp rep amount ≡ record rep { xp = rep.xp - amount }
unfolding remove_xp
remove_xp_monus rep amount = ground arith

-- Where no grant overflows a uint64 on top of the largest XP, an attestation adds the configured XP up
-- to the maximum, counts the block and notes the time; an uptime check adds its bonus in the same way;
-- a slash takes the penalty down to zero and counts. Each leaves the uptime and every other validator
-- as they were.
pub xp_effects :
    (m : Manager) (addr now : ℕ) (rep : ValidatorReputation)
    → m.cfg.max_xp + m.cfg.block_attestation_xp < 2 ^ 64
    → m.cfg.max_xp + m.cfg.uptime_bonus_xp < 2 ^ 64
    → rep.xp ≤ m.cfg.max_xp
    → lookup addr m.reps ≡ some rep
    → Sets m (record_attestation m addr now) addr (record rep {
      xp = min (rep.xp + m.cfg.block_attestation_xp) m.cfg.max_xp;
      blocks_attested = add_u64 rep.blocks_attested 1;
      last_active = now;
    })
      × Sets m
          (record_uptime_check m addr now)
          addr
          (record rep { xp = min (rep.xp + m.cfg.uptime_bonus_xp) m.cfg.max_xp; last_active = now })
      × Sets m (record_slash m addr) addr (record rep {
        xp = rep.xp - m.cfg.slash_penalty_xp;
        slash_count = add_u64 rep.slash_count 1;
      })
unfolding record_attestation record_uptime_check record_slash
xp_effects m addr now rep fa fb h e = (
  update-Sets m addr _ rep _ e (add_xp_saturates m.cfg _ m.cfg.block_attestation_xp fa h),
  update-Sets m addr _ rep _ e (add_xp_saturates m.cfg _ m.cfg.uptime_bonus_xp fb h),
  update-Sets m addr _ rep _ e (remove_xp_monus _ m.cfg.slash_penalty_xp),
)

update_uptime_exact :
    (rep : ValidatorReputation) (missed : ℕ)
    → rep.blocks_attested < 2 ^ 48
    → missed < 2 ^ 48
    → update_uptime (record rep { blocks_missed = add_u64 missed 1 }) ≡ record rep {
      blocks_missed = missed + 1;
      uptime_bps = rep.blocks_attested * 10000 / (rep.blocks_attested + (missed + 1));
    }
unfolding update_uptime
update_uptime_exact rep missed ha hm =
    let a = rep.blocks_attested in
    let counted : add_u64 missed 1 ≡ missed + 1 = omega arith in
    let total : add_u64 a (missed + 1) ≡ a + (missed + 1) = omega arith in
    let product : mul_u64 a 10000 ≡ a * 10000 = omega arith in
    let small : a * 10000 / (a + (missed + 1)) ≤ 10000 =
      rw product at (share_le a (missed + 1) (omega arith)) in
    rw (counted, total, product) (ground arith)

-- After a missed block the uptime is the share of attested blocks among all, in basis points rounded
-- down, if the counters are below 2 ^ 48; the missed block is counted, and no other entry changes.
pub record_missed_block_lem :
    (m : Manager) (addr : ℕ) (rep : ValidatorReputation)
    → rep.blocks_attested < 2 ^ 48
    → rep.blocks_missed < 2 ^ 48
    → lookup addr m.reps ≡ some rep
    → Sets m (record_missed_block m addr) addr (record rep {
      blocks_missed = rep.blocks_missed + 1;
      uptime_bps = rep.blocks_attested * 10000 / (rep.blocks_attested + (rep.blocks_missed + 1));
    })
unfolding record_missed_block update_uptime
record_missed_block_lem m addr rep ha hm e =
    update-Sets m addr _ rep _ e (update_uptime_exact rep rep.blocks_missed ha hm)

attested :
    (m : Manager) (addr now : ℕ) (rep : ValidatorReputation)
    → lookup addr m.reps ≡ some rep
    → lookup addr (record_attestation m addr now).reps
      ≡ some (record rep {
        xp = (add_xp m.cfg rep m.cfg.block_attestation_xp).xp;
        blocks_attested = add_u64 rep.blocks_attested 1;
        last_active = now;
      })
unfolding record_attestation add_xp
attested m addr now rep e = update_self m addr _ rep e

abbrev pub attest_times : ℕ → Manager → ℕ → ℕ → Manager
attest_times zero m addr now = m
attest_times (suc n) m addr now = attest_times n (record_attestation m addr now) addr now

-- Attestations never refresh the uptime: however many follow, it stays what the last missed block left.
pub uptime_stale :
    (n : ℕ) (m : Manager) (addr now : ℕ) (rep : ValidatorReputation)
    → lookup addr m.reps ≡ some rep
    → (rep' : ValidatorReputation) × (lookup addr (attest_times n m addr now).reps ≡ some rep')
      × (rep'.uptime_bps ≡ rep.uptime_bps)
uptime_stale zero m addr now rep e = (rep, e, refl)
uptime_stale (suc n) m addr now rep e =
    uptime_stale n (record_attestation m addr now) addr now _ (attested m addr now rep e)

lookup-decay_all :
    (other : Float → ℕ) (rate : Float) (addr : ℕ) (d : Dict ValidatorReputation)
    → lookup addr (decay_all other rate d) ≡ Option.map (decayed other rate) (lookup addr d)
unfolding decay_all
lookup-decay_all other rate addr [] = refl
lookup-decay_all other rate addr ((k, rep) ∷ d) = ground (arith, lookup-decay_all other rate addr d)

-- `ApplyDecay` treats every validator alike, by a decay computed from its XP alone, and raises nobody's
-- XP, whatever the platform makes of a decay out of the range of uint64; an unknown address stays so.
pub apply_decay_lem :
    (other : Float → ℕ) (m : Manager) (addr : ℕ)
    → (lookup addr (apply_decay other m).reps
        ≡ Option.map (decayed other m.cfg.decay_rate_per_day) (lookup addr m.reps))
      × ((rep : ValidatorReputation) → (decayed other m.cfg.decay_rate_per_day rep).xp ≤ rep.xp)
unfolding apply_decay
apply_decay_lem other m addr = (
  lookup-decay_all other m.cfg.decay_rate_per_day addr m.reps,
  decayed-le other m.cfg.decay_rate_per_day,
)

-- With a maximum of XP that is above 0 and fits 64 bits, for a known validator with uptime within 10000
-- basis points, and a TasteScore that is not negative or undefined, the score lies from 0 to below 1; the score and the tier that are returned are those that are
-- stored, and the rest of the entry and every other entry stay as they were.
pub compute_sovereignty_lem :
    (m : Manager) (addr now : ℕ) (stake taste_score : Float) (rep : ValidatorReputation)
    → 0 < m.cfg.max_xp
    → IsU64 m.cfg.max_xp
    → rep.uptime_bps ≤ 10000
    → IsNonneg taste_score
    → lookup addr m.reps ≡ some rep
    → let (m', score, tier) = compute_sovereignty m addr stake taste_score now in
      IsNonneg score
      × (lt score one ≡ true)
      × (tier ≡ score_tier score)
      × Sets m m' addr (record rep { sovereignty_score = score; tier = tier })
unfolding compute_sovereignty
compute_sovereignty_lem m addr now stake taste_score rep p fits u nonneg e =
    let (lo, hi) =
      score_bounds rep.xp m.cfg.max_xp rep.uptime_bps rep.joined_at now taste_score p fits u
        nonneg in
    rw (e, compute_sovereignty)
      (
        lo,
        hi,
        refl,
        (lookup-insert_self addr _ m.reps, λ w ne. lookup-insert_ne w addr _ m.reps ne),
      )
