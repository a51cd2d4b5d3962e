-- ===== src/Consensus/Power.antt =====
-- Sums of voting powers, as floating-point additions in the order of the loops.
use inso_validator.Prelude.{
  ℕ, ◌≡◌, refl, true, List, [], ◌∷◌, ◌++◌, none, some, if◌then◌else◌, arith, inl, inr, Bool-cases,
  Option-cases, All,
}
use inso_validator.Prelude.Dict.{Dict, lookup, Every, Every-lookup}
use inso_validator.Float.{Float, add, le}
use inso_validator.Float.Order.{IsNonneg, add-IsNonneg, le_trans, le_refl}
use inso_validator.Float.Fixed.{IsFixed, add-IsFixed, le-add}
use inso_validator.Consensus.{ValidatorInfo, Attestation, total_power, power_of, attested_power}

abbrev pub HasPower : ValidatorInfo → Type 0
HasPower v = IsNonneg v.vote_power

-- No validator has a negative power or one that is not a number.
abbrev pub IsPowered : Dict ValidatorInfo → Type 0
IsPowered validators = Every HasPower validators

-- The range over the map visits its entries, in some order.
abbrev pub Visits : Dict ValidatorInfo → List ValidatorInfo → Type 0
Visits validators visits = All (λ v. (k : ℕ) × (lookup k validators ≡ some v)) visits

pub total_power-IsNonneg :
    (validators : Dict ValidatorInfo) (visits : List ValidatorInfo) (acc : Float)
    → IsPowered validators
    → Visits validators visits
    → IsNonneg acc
    → IsNonneg (total_power acc visits)
unfolding total_power
total_power-IsNonneg validators [] acc h r p = p
total_power-IsNonneg validators (v ∷ vs) acc h ((k, found), r) p =
    let hv : IsNonneg v.vote_power = Every-lookup HasPower k v validators h found in
    elim (Bool-cases v.is_active) [
      | inl active ↦ rw active (
          total_power-IsNonneg validators vs (add acc v.vote_power) h r
            (add-IsNonneg acc v.vote_power p hv))
      | inr idle ↦ rw idle (total_power-IsNonneg validators vs acc h r p)
    ]

module _ (validators : Dict ValidatorInfo) (h : IsPowered validators) where
  active_power :
      {p : Float} (v : ValidatorInfo)
      → IsNonneg v.vote_power
      → (if v.is_active then some v.vote_power else none) ≡ some p
      → IsNonneg p
  active_power v nonneg e = ground arith

  power_of-IsNonneg : (addr : ℕ) (p : Float) → power_of validators addr ≡ some p → IsNonneg p
  unfolding power_of
  power_of-IsNonneg addr p e = elim (Option-cases (lookup addr validators)) [
    | inl missing ↦ absurd (ground arith)
    | inr (v, found) ↦
        let nonneg : IsNonneg v.vote_power = Every-lookup HasPower addr v validators h found in
        active_power v nonneg (rw (found, power_of) at e)
  ]

  -- A sum of powers that are not negative is not below where it starts.
  pub attested_power-grows :
      (acc : Float) (atts : List Attestation)
      → IsNonneg acc
      → IsFixed acc
      → IsNonneg (attested_power validators acc atts)
        × IsFixed (attested_power validators acc atts)
        × (le acc (attested_power validators acc atts) ≡ true)
  unfolding attested_power
  attested_power-grows acc [] p fixed = (p, fixed, le_refl acc p)
  attested_power-grows acc (att ∷ atts) p fixed =
      elim (Option-cases (power_of validators att.validator)) [
        | inl nothing ↦ rw nothing (attested_power-grows acc atts p fixed)
        | inr (power, found) ↦
            let q = power_of-IsNonneg att.validator power found in
            let (nonneg, kept, above) =
              attested_power-grows (add acc power) atts (add-IsNonneg acc power p q)
                (add-IsFixed acc power p q) in
            rw found
              (nonneg, kept, le_trans acc (add acc power) _ (le-add acc power p q fixed) above)
      ]

  pub attested_power-append :
      (xs ys : List Attestation) (acc : Float)
      → attested_power validators acc (xs ++ ys)
        ≡ attested_power validators (attested_power validators acc xs) ys
  unfolding attested_power
  attested_power-append [] ys acc = refl
  attested_power-append (x ∷ xs) ys acc = attested_power-append xs ys _
