-- ===== src/Reputation.antt =====
-- internal/reputation/manager.go. The mutex makes each method one step; log lines and the tier's
-- name, which only they use, are left out. `now` is what `time.Now` returns, in nanoseconds.
pub mod Score
pub mod History
pub mod Effects
mod Tests
use inso_validator.Prelude.{
  ℕ, ◌+◌, ◌-◌, ◌*◌, ◌/◌, ◌%◌, ◌^◌, Bool, true, false, List, [], ◌∷◌, Option, none, some, ltb, leb,
  ◌==◌, if◌then◌else◌,
}
use inso_validator.Prelude.Dict.{Dict, lookup, insert, contains, values}
use inso_validator.Prelude.Word.{add_u64, mul_u64}
use inso_validator.Float.{Float, fin, of_ℕ, const, mul, to_uint64}
use inso_validator.Prelude.Int.{pos}
use Score.{score_of, score_tier}

pub record XpConfig : Type 0 where
  pub max_xp : ℕ
  pub block_attestation_xp : ℕ
  pub uptime_bonus_xp : ℕ
  pub slash_penalty_xp : ℕ
  pub decay_rate_per_day : Float

unfoldable pub default_xp_config : XpConfig
default_xp_config = record {
  max_xp = 100_000;
  block_attestation_xp = 10;
  uptime_bonus_xp = 5;
  slash_penalty_xp = 500;
  decay_rate_per_day = const 5 1000;
}

pub record ValidatorReputation : Type 0 where
  pub address : ℕ
  pub xp : ℕ
  pub uptime_bps : ℕ
  pub blocks_attested : ℕ
  pub blocks_missed : ℕ
  pub slash_count : ℕ
  pub sovereignty_score : Float
  pub tier : ℕ
  pub last_active : ℕ
  pub joined_at : ℕ

pub record Manager : Type 0 where
  pub cfg : XpConfig
  pub reps : Dict ValidatorReputation

unfoldable pub new_manager : Option XpConfig → Manager
new_manager none = record { cfg = default_xp_config; reps = [] }
new_manager (some cfg) = record { cfg = cfg; reps = [] }

unfoldable pub register : Manager → ℕ → ℕ → Manager
register m addr now =
    if contains addr m.reps then m else record m { reps = insert addr fresh m.reps }
  where
    fresh : ValidatorReputation
    fresh = record {
      address = addr;
      xp = 0;
      uptime_bps = 10000;
      blocks_attested = 0;
      blocks_missed = 0;
      slash_count = 0;
      sovereignty_score = fin (pos 0);
      tier = 0;
      last_active = now;
      joined_at = now;
    }

unfoldable pub add_xp : XpConfig → ValidatorReputation → ℕ → ValidatorReputation
add_xp cfg rep amount =
    let total = add_u64 rep.xp amount in
    record rep { xp = if ltb cfg.max_xp total then cfg.max_xp else total }

unfoldable pub remove_xp : ValidatorReputation → ℕ → ValidatorReputation
remove_xp rep amount = record rep { xp = if leb rep.xp amount then 0 else rep.xp - amount }

unfoldable pub update_uptime : ValidatorReputation → ValidatorReputation
update_uptime rep =
    let total = add_u64 rep.blocks_attested rep.blocks_missed in
    record rep {
      uptime_bps = if total == 0 then 10000 else mul_u64 rep.blocks_attested 10000 / total % 2 ^ 16;
    }

-- The common shape of the `Record` methods: nothing happens for an unknown address.
abbrev pub update : Manager → ℕ → (ValidatorReputation → ValidatorReputation) → Manager
update m addr f = elim (lookup addr m.reps) [
  | none ↦ m
  | some rep ↦ record m { reps = insert addr (f rep) m.reps }
]

unfoldable pub record_attestation : Manager → ℕ → ℕ → Manager
record_attestation m addr now = update m addr λ rep.
    add_xp m.cfg (record rep { blocks_attested = add_u64 rep.blocks_attested 1; last_active = now })
      m.cfg.block_attestation_xp

unfoldable pub record_missed_block : Manager → ℕ → Manager
record_missed_block m addr =
    update m addr λ rep. update_uptime (record rep { blocks_missed = add_u64 rep.blocks_missed 1 })

unfoldable pub record_slash : Manager → ℕ → Manager
record_slash m addr =
    update m addr λ rep.
      remove_xp (record rep { slash_count = add_u64 rep.slash_count 1 }) m.cfg.slash_penalty_xp

unfoldable pub record_uptime_check : Manager → ℕ → ℕ → Manager
record_uptime_check m addr now =
    update m addr λ rep. add_xp m.cfg (record rep { last_active = now }) m.cfg.uptime_bonus_xp

-- The stake is an argument of the method, which does not read it.
unfoldable pub compute_sovereignty : Manager → ℕ → Float → Float → ℕ → Manager × Float × ℕ
compute_sovereignty m addr stake_wei taste_score now = elim (lookup addr m.reps) [
  | none ↦ (m, fin (pos 0), 0)
  | some rep ↦
      let score = score_of rep.xp m.cfg.max_xp rep.uptime_bps rep.joined_at now taste_score in
      let tier = score_tier score in
      (
        record m {
          reps = insert addr (record rep { sovereignty_score = score; tier = tier }) m.reps;
        },
        score,
        tier,
      )
]

unfoldable pub get_reputation : Manager → ℕ → Option ValidatorReputation
get_reputation m addr = lookup addr m.reps

unfoldable pub all_reputations : Manager → List ValidatorReputation
all_reputations m = values m.reps

-- `uint64(f)`; `other` is what the platform makes of a value out of range.
abbrev pub convert : (Float → ℕ) → Float → ℕ
convert other f = elim (to_uint64 f) [ some n ↦ n | none ↦ other f ]

unfoldable pub decayed : (Float → ℕ) → Float → ValidatorReputation → ValidatorReputation
decayed other rate rep =
    let decay = convert other (mul (of_ℕ rep.xp) rate) in
    record rep { xp = if ltb rep.xp decay then 0 else rep.xp - decay }

-- The loop of `ApplyDecay`.
unfoldable pub decay_all : (Float → ℕ) → Float → Dict ValidatorReputation → Dict ValidatorReputation
decay_all other rate [] = []
decay_all other rate ((k, rep) ∷ reps) = (k, decayed other rate rep) ∷ decay_all other rate reps

unfoldable pub apply_decay : (Float → ℕ) → Manager → Manager
apply_decay other m = record m { reps = decay_all other m.cfg.decay_rate_per_day m.reps }
