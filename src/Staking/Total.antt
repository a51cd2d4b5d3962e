-- ===== src/Staking/Total.antt =====
-- `TotalStaked` and `ActiveValidators` against their specifications: the sum and the set over the
-- active positions, whatever the order in which Go iterates over the map.
use inso_validator.Prelude.{
  ℕ, ◌≡◌, ap, true, List, [], ◌∷◌, ◌++◌, none, some, arith, if◌then◌else◌, ◌∙◌, ◌==◌, Bool-cases,
  inl, inr,
}
use inso_validator.Prelude.Int.{ℤ, pos, pos_part, neg_part, ◌+ℤ◌, int_laws}
use inso_validator.Prelude.Dict.{Dict, lookup, insert, values}
use mathlib.Core.Bool.{Bool-discrete}
use mathlib.Core.Option.{some-injective}
use mathlib.Core.List.{append_assoc, append-nil, foldr, filter}
use inso_validator.Staking.{
  Stake, Manager, sum_active, total_staked, collect_active, active_validators,
}

-- What a position adds to the total.
abbrev pub weight : Stake → ℤ
weight s = if s.is_active then s.amount else pos 0

abbrev add_weight : Stake → ℤ → ℤ
add_weight s total = weight s +ℤ total

abbrev pub total_of : List Stake → ℤ
total_of = foldr add_weight (pos 0)

abbrev active? : (s : Stake) → Dec (s.is_active ≡ true)
active? s = Bool-discrete s.is_active true

-- The active positions among the given ones.
abbrev pub active_of : List Stake → List Stake
active_of = filter active?

sum_active-total_of : (ss : List Stake) (acc : ℤ) → sum_active acc ss ≡ acc +ℤ total_of ss
unfolding sum_active
sum_active-total_of [] acc = omega int_laws
sum_active-total_of (s ∷ ss) acc =
    sum_active-total_of ss (if s.is_active then acc +ℤ s.amount else acc) ∙ grind int_laws

pub total_staked-total_of : (m : Manager) → total_staked m ≡ total_of (values m.stakes)
unfolding total_staked
total_staked-total_of m = sum_active-total_of (values m.stakes) (pos 0) ∙ omega int_laws

collect_active-active_of : (ss acc : List Stake) → collect_active acc ss ≡ acc ++ active_of ss
unfolding collect_active
collect_active-active_of [] acc = simp append-nil
collect_active-active_of (s ∷ ss) acc =
    collect_active-active_of ss (if s.is_active then acc ++ (s ∷ []) else acc)
    ∙ ground (arith, append_assoc acc (s ∷ []) (active_of ss))

shift : (w t t' a b : ℤ) → t' +ℤ a ≡ t +ℤ b → w +ℤ t' +ℤ a ≡ w +ℤ t +ℤ b
shift w t t' a b h = omega (int_laws, ap pos_part h, ap neg_part h)

-- The sum over the active positions of a dictionary changes by what one entry changes.
pub total_of-insert :
    (k : ℕ) (s old : Stake) (d : Dict Stake)
    → lookup k d ≡ some old
    → total_of (values (insert k s d)) +ℤ weight old ≡ total_of (values d) +ℤ weight s
total_of-insert k s old [] e = absurd (cc)
total_of-insert k s old ((j, x) ∷ d) e = elim (Bool-cases (k == j)) [
  | inl hit ↦
      let same : x ≡ old = some-injective _ _ (rw hit at e) in rw (hit, same) (omega int_laws)
  | inr miss ↦ rw miss (
      shift (weight x) (total_of (values d)) _ (weight old) (weight s)
        (total_of-insert k s old d (rw miss at e)))
]

pub total_of-insert_new :
    (k : ℕ) (s : Stake) (d : Dict Stake)
    → lookup k d ≡ none
    → total_of (values (insert k s d)) ≡ total_of (values d) +ℤ weight s
total_of-insert_new k s [] e = omega int_laws
total_of-insert_new k s ((j, x) ∷ d) e = elim (Bool-cases (k == j)) [
  | inl hit ↦ absurd (cc (rw hit at e))
  | inr miss ↦ rw miss (grind (int_laws, total_of-insert_new k s d (rw miss at e)))
]

-- `ActiveValidators` returns the active positions, in the order of the iteration.
pub active_validators-active_of : (m : Manager) → active_validators m ≡ active_of (values m.stakes)
unfolding active_validators
active_validators-active_of m = collect_active-active_of (values m.stakes) []
