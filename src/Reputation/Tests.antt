-- ===== src/Reputation/Tests.antt =====
-- The reputation manager on concrete inputs.
use inso_validator.Prelude.{ℕ, ◌≤◌, ◌≡◌, refl, true, List, [], ◌∷◌, some, arith}
use inso_validator.Prelude.Int.{pos}
use inso_validator.Prelude.Dict.{Every}
use inso_validator.Float.{Float, fin, lt, le}
use inso_validator.Float.Order.{IsNonneg}
use inso_validator.Reputation.{
  XpConfig, default_xp_config, ValidatorReputation, Manager, new_manager, compute_sovereignty,
}
use inso_validator.Reputation.Score.{one, score_of, score_tier}
use inso_validator.Reputation.Score.Order.{score_mono}
use inso_validator.Reputation.History.{
  Event, registers, attests, checks, misses, slashes, decays, run, run-IsBounded,
}
use inso_validator.Reputation.History.Entry.{IsBounded}
use inso_validator.Reputation.Effects.{Sets, compute_sovereignty_lem}

abbrev plain_config : XpConfig
plain_config = record {
  max_xp = 100_000;
  block_attestation_xp = 10;
  uptime_bonus_xp = 5;
  slash_penalty_xp = 500;
  decay_rate_per_day = fin (pos 0);
}

abbrev veteran : ValidatorReputation
veteran = record {
  address = 7;
  xp = 99_995;
  uptime_bps = 9_000;
  blocks_attested = 90;
  blocks_missed = 10;
  slash_count = 1;
  sovereignty_score = fin (pos 0);
  tier = 0;
  last_active = 3;
  joined_at = 0;
}

abbrev one_known : Manager
one_known = record { cfg = plain_config; reps = (7, veteran) ∷ [] }

abbrev no_number : Float → ℕ
no_number _ = 0

abbrev events : List Event
events = registers 7 1 ∷ attests 7 2 ∷ misses 7 ∷ slashes 7 ∷ checks 7 9 ∷ decays ∷ []

run-IsBounded_example :
    Every (IsBounded 100_000 6) (run no_number (new_manager (some default_xp_config)) events).reps
unfolding default_xp_config
run-IsBounded_example = run-IsBounded no_number default_xp_config events (omega arith)

score_mono_example :
    let score = score_of 100 1000 9000 0 5 (fin (pos 0)) in
    let score' = score_of 200 1000 9500 0 5 (fin (pos 0)) in
    (le score score' ≡ true) × (score_tier score ≤ score_tier score')
score_mono_example =
    score_mono 100 200 1000 9000 9500 0 5 (fin (pos 0)) (omega arith) (omega arith) (omega arith)
      (omega arith) (omega arith) tt

compute_sovereignty_lem_example :
    let (m', score, tier) = compute_sovereignty one_known 7 (fin (pos 0)) (fin (pos 0)) 8 in
    IsNonneg score
    × (lt score one ≡ true)
    × (tier ≡ score_tier score)
    × Sets one_known m' 7 (record veteran { sovereignty_score = score; tier = tier })
compute_sovereignty_lem_example =
    compute_sovereignty_lem one_known 7 8 (fin (pos 0)) (fin (pos 0)) veteran (omega arith)
      (omega arith) (omega arith) tt refl
