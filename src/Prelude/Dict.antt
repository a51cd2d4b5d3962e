-- ===== src/Prelude/Dict.antt =====
-- Go's maps keyed by addresses or block numbers, as association lists in some iteration order.
use Prim.Native.Nat.{ℕ}
use mathlib.Core.Path.{◌≡◌, refl}
use mathlib.Core.Logic.{◌≢◌}
use mathlib.Core.Bool.{Bool, true, false}
use mathlib.Core.Option.{Option, none, some}
use mathlib.Core.List.{List, [], ◌∷◌}
use native.Mathlib.Omega.{arith}
use inso_validator.Prelude.Tests.{◌==◌, if◌then◌else◌}

abbrev pub Dict : Type 0 → Type 0
Dict V = List (ℕ × V)

module _ {V : Type 0} where
  -- `m[key] = value`, and a write through the pointer stored under the key.
  abbrev pub insert : ℕ → V → Dict V → Dict V
  insert key value [] = (key, value) ∷ []
  insert key value ((j, old) ∷ rest) =
      if key == j then (key, value) ∷ rest else (j, old) ∷ insert key value rest

  -- `value, ok := m[key]`
  abbrev pub lookup : ℕ → Dict V → Option V
  lookup key [] = none
  lookup key (entry ∷ rest) = if key == entry.0 then some entry.1 else lookup key rest

  -- A read after a write.
  pub lookup-insert :
      (i key : ℕ) (value : V) (m : Dict V)
      → lookup i (insert key value m) ≡ (if i == key then some value else lookup i m)
  lookup-insert i key value [] = ground arith
  lookup-insert i key value (entry ∷ rest) = ground (arith, lookup-insert i key value rest)

  pub lookup-insert_self :
      (key : ℕ) (value : V) (m : Dict V) → lookup key (insert key value m) ≡ some value
  lookup-insert_self key value m = ground (arith, lookup-insert key key value m)

  -- The test whether a key is there.
  abbrev pub contains : ℕ → Dict V → Bool
  contains key m = elim (lookup key m) [ none ↦ false | some _ ↦ true ]

  pub lookup-insert_ne :
      (i key : ℕ) (value : V) (m : Dict V) → i ≢ key → lookup i (insert key value m) ≡ lookup i m
  lookup-insert_ne i key value m other = ground (arith, lookup-insert i key value m)

  -- `for _, v := range m`, in the order of the list.
  abbrev pub values : Dict V → List V
  values [] = []
  values ((_, v) ∷ d) = v ∷ values d

  -- A key occurs once, as in a map.
  abbrev pub HasUniqueKeys : Dict V → Type 0
  HasUniqueKeys [] = Unit
  HasUniqueKeys ((k, v) ∷ d) = (lookup k d ≡ none) × HasUniqueKeys d

  pub insert-HasUniqueKeys :
      (k : ℕ) (v : V) (d : Dict V) → HasUniqueKeys d → HasUniqueKeys (insert k v d)
  insert-HasUniqueKeys k v [] h = (refl, tt)
  insert-HasUniqueKeys k v (e ∷ d) h =
      ground (arith, insert-HasUniqueKeys k v d h.1, lookup-insert_ne e.0 k v d)

  -- Every value of the map has a property.
  abbrev pub Every : (V → Type 0) → Dict V → Type 0
  Every P [] = Unit
  Every P ((k, v) ∷ d) = P v × Every P d

  pub Every-lookup :
      (P : V → Type 0) (k : ℕ) (v : V) (d : Dict V) → Every P d → lookup k d ≡ some v → P v
  Every-lookup P k v [] h e = absurd (cc)
  Every-lookup P k v (x ∷ d) h e = ground (arith, Every-lookup P k v d h.1)

  pub Every-insert :
      (P : V → Type 0) (k : ℕ) (v : V) (d : Dict V) → Every P d → P v → Every P (insert k v d)
  Every-insert P k v [] h p = (p, tt)
  Every-insert P k v (x ∷ d) h p = ground (arith, Every-insert P k v d h.1 p)
