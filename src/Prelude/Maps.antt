-- ===== src/Prelude/Maps.antt =====
-- A `HashMap` keyed by numbers, as an association list in the order of first insertion.
use Prim.Native.Nat.{ℕ}
use mathlib.Core.Path.{◌≡◌, refl}
use mathlib.Core.Option.{Option, none, some}
use mathlib.Core.List.{List, [], ◌∷◌}
use native.Mathlib.Omega.{arith}
use hype_trigger_twap.Prelude.Tests.{◌==◌, if◌then◌else◌}

abbrev pub Map {ℓ} : Type ℓ → Type ℓ
Map V = List (ℕ × V)

module _ {ℓ} {V : Type ℓ} where
  -- `map.get(&key)`
  abbrev pub lookup : ℕ → Map V → Option V
  lookup key ((other, value) ∷ rest) = if other == key then some value else lookup key rest
  lookup key [] = none

  -- `map.insert(key, value)`
  abbrev pub insert : ℕ → V → Map V → Map V
  insert key value ((other, old) ∷ rest) =
      if other == key then (key, value) ∷ rest else (other, old) ∷ insert key value rest
  insert key value [] = (key, value) ∷ []

  pub lookup-insert :
      (key asked : ℕ) (value : V) (entries : Map V)
      → lookup asked (insert key value entries)
        ≡ (if key == asked then some value else lookup asked entries)
  lookup-insert key asked value ((other, old) ∷ rest) =
      ground (arith, lookup-insert key asked value rest)
  lookup-insert key asked value [] = refl

  pub lookup-insert_same :
      (key : ℕ) (value : V) (entries : Map V) → lookup key (insert key value entries) ≡ some value
  lookup-insert_same key value entries = ground (arith, lookup-insert key key value entries)
