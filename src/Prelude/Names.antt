-- ===== src/Prelude/Names.antt =====
-- Go's maps keyed by strings, as association lists in some iteration order.
use Prim.Native.String.{String}
use text.Mathlib.Text.{◌==◌}
use text.Mathlib.TextEquality.{eq_iff}
use mathlib.Core.Path.{◌≡◌, refl}
use mathlib.Core.Bool.{Bool, true}
use mathlib.Core.Option.{Option, none, some}
use mathlib.Core.List.{List, [], ◌∷◌}
use native.Mathlib.Omega.{arith}
use inso_validator.Prelude.Tests.{if◌then◌else◌}

abbrev pub Names : Type 0 → Type 0
Names V = List (String × V)

-- The test for equal texts, and the equation behind it.
abbrev pub same : String → String → Bool
same a b = a == b

pub same_iff : (a b : String) → (same a b ≡ true → a ≡ b) × (a ≡ b → same a b ≡ true)
same_iff a b = ((eq_iff a b).0, (eq_iff a b).1)

module _ {V : Type 0} where
  abbrev pub put : String → V → Names V → Names V
  put key value [] = (key, value) ∷ []
  put key value (entry ∷ rest) =
      if same key entry.0 then (key, value) ∷ rest else entry ∷ put key value rest

  abbrev pub find : String → Names V → Option V
  find key [] = none
  find key (entry ∷ rest) = if same key entry.0 then some entry.1 else find key rest

  -- `if v, ok := m[key]; ok { ... }` on the value behind the pointer.
  abbrev pub change : String → (V → V) → Names V → Names V
  change key f [] = []
  change key f (entry ∷ rest) =
      if same key entry.0 then (entry.0, f entry.1) ∷ rest else entry ∷ change key f rest

  -- A loop over the map that writes through its pointers.
  abbrev pub change_all : (V → V) → Names V → Names V
  change_all f [] = []
  change_all f (entry ∷ rest) = (entry.0, f entry.1) ∷ change_all f rest

  abbrev pub apply : (V → V) → Option V → Option V
  apply f none = none
  apply f (some v) = some (f v)

  pub find-put :
      (i key : String) (value : V) (m : Names V)
      → find i (put key value m) ≡ (if same i key then some value else find i m)
  find-put i key value [] = refl
  find-put i key value (entry ∷ rest) =
      ground
        (arith, find-put i key value rest, same_iff i key, same_iff key entry.0, same_iff i entry.0)

  pub find-change :
      (i key : String) (f : V → V) (m : Names V)
      → find i (change key f m) ≡ (if same i key then apply f (find i m) else find i m)
  find-change i key f [] = ground arith
  find-change i key f (entry ∷ rest) =
      ground
        (arith, find-change i key f rest, same_iff i key, same_iff key entry.0, same_iff i entry.0)

  pub find-change_all :
      (i : String) (f : V → V) (m : Names V) → find i (change_all f m) ≡ apply f (find i m)
  find-change_all i f [] = refl
  find-change_all i f (entry ∷ rest) = ground (arith, find-change_all i f rest)

  -- A key occurs once, as in a map.
  abbrev pub HasUniqueNames : Names V → Type 0
  HasUniqueNames [] = Unit
  HasUniqueNames (entry ∷ rest) = (find entry.0 rest ≡ none) × HasUniqueNames rest

  pub put-HasUniqueNames :
      (key : String) (value : V) (m : Names V) → HasUniqueNames m → HasUniqueNames (put key value m)
  put-HasUniqueNames key value [] h = (refl, tt)
  put-HasUniqueNames key value (entry ∷ rest) h = ground (
    arith,
    put-HasUniqueNames key value rest h.1,
    find-put entry.0 key value rest,
    same_iff key entry.0,
    same_iff entry.0 key,
  )

  pub change-HasUniqueNames :
      (key : String) (f : V → V) (m : Names V) → HasUniqueNames m → HasUniqueNames (change key f m)
  change-HasUniqueNames key f [] h = tt
  change-HasUniqueNames key f (entry ∷ rest) h =
      ground (arith, change-HasUniqueNames key f rest h.1, find-change entry.0 key f rest)

  pub change_all-HasUniqueNames :
      (f : V → V) (m : Names V) → HasUniqueNames m → HasUniqueNames (change_all f m)
  change_all-HasUniqueNames f [] h = tt
  change_all-HasUniqueNames f (entry ∷ rest) h =
      ground (arith, change_all-HasUniqueNames f rest h.1, find-change_all entry.0 f rest)
