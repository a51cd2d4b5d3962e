-- ===== src/Reputation/History/Entry.antt =====
-- One entry of the reputation manager stays within bounds under each operation.
use inso_validator.Prelude.{ℕ, ◌+◌, ◌≤◌, ◌<◌, ◌≡◌, ◌^◌, ◌/◌, [], ◌∷◌, arith}
use inso_validator.Prelude.Dict.{Dict, Every}
use inso_validator.Prelude.Word.{add_u64, mul_u64}
use inso_validator.Float.{Float}
use native.Mathlib.Nat.{div-le_of_le-mul, le_trans}
use inso_validator.Reputation.{
  XpConfig, ValidatorReputation, add_xp, update_uptime, decayed, decay_all,
}

-- XP within the maximum, uptime within 10000 basis points, and at most `n` blocks counted.
pub record IsBounded (max_xp n : ℕ) (rep : ValidatorReputation) : Type 0 where
  pub xp_le : rep.xp ≤ max_xp
  pub uptime_le : rep.uptime_bps ≤ 10000
  pub blocks_le : rep.blocks_attested + rep.blocks_missed ≤ n

IsBounded-mono :
    (max_xp n : ℕ) (rep : ValidatorReputation)
    → IsBounded max_xp n rep
    → IsBounded max_xp (n + 1) rep
IsBounded-mono max_xp n rep h = ground arith

pub Every-mono :
    (max_xp n : ℕ) (d : Dict ValidatorReputation)
    → Every (IsBounded max_xp n) d
    → Every (IsBounded max_xp (n + 1)) d
Every-mono max_xp n [] h = tt
Every-mono max_xp n ((k, rep) ∷ d) h = (IsBounded-mono max_xp n rep h.0, Every-mono max_xp n d h.1)

pub add_xp-IsBounded :
    (cfg : XpConfig) (rep : ValidatorReputation) (amount n : ℕ)
    → rep.uptime_bps ≤ 10000
    → rep.blocks_attested + rep.blocks_missed ≤ n
    → IsBounded cfg.max_xp n (add_xp cfg rep amount)
unfolding add_xp
add_xp-IsBounded cfg rep amount n u b = ground arith

-- The rounded-down share is at most the whole, even if the product has wrapped.
pub share_le : (a b : ℕ) → 0 < a + b → mul_u64 a 10000 / (a + b) ≤ 10000
share_le a b h = div-le_of_le-mul (a + b) (omega arith)

update_uptime_le :
    (rep : ValidatorReputation)
    → rep.blocks_attested + rep.blocks_missed < 2 ^ 64
    → (update_uptime rep).uptime_bps ≤ 10000
unfolding update_uptime
update_uptime_le rep h =
    let same : add_u64 rep.blocks_attested rep.blocks_missed
        ≡ rep.blocks_attested + rep.blocks_missed =
      omega arith in
    rw same (ground (arith, share_le rep.blocks_attested rep.blocks_missed))

pub missed-IsBounded :
    (max_xp n : ℕ) (rep : ValidatorReputation)
    → n + 1 < 2 ^ 64
    → IsBounded max_xp n rep
    → IsBounded max_xp
        (n + 1)
        (update_uptime (record rep { blocks_missed = add_u64 rep.blocks_missed 1 }))
missed-IsBounded max_xp n rep fits h =
    let missed : ValidatorReputation = record rep { blocks_missed = add_u64 rep.blocks_missed 1 } in
    record {
      xp_le = unfold update_uptime in h.xp_le;
      uptime_le = update_uptime_le missed (omega arith);
      blocks_le = unfold update_uptime in omega arith;
    }

pub decayed-le :
    (other : Float → ℕ) (rate : Float) (rep : ValidatorReputation)
    → (decayed other rate rep).xp ≤ rep.xp
unfolding decayed
decayed-le other rate rep = ground arith

pub decay_all-Every :
    (other : Float → ℕ) (rate : Float) (max_xp n : ℕ) (d : Dict ValidatorReputation)
    → Every (IsBounded max_xp n) d
    → Every (IsBounded max_xp n) (decay_all other rate d)
unfolding decay_all
decay_all-Every other rate max_xp n [] h = tt
decay_all-Every other rate max_xp n ((k, rep) ∷ d) h = (
  record {
    xp_le = le_trans (decayed-le other rate rep) h.0.xp_le;
    uptime_le = unfold decayed in h.0.uptime_le;
    blocks_le = unfold decayed in h.0.blocks_le;
  },
  decay_all-Every other rate max_xp n d h.1,
)
