-- ===== src/Base/Map.antt =====
-- A `BTreeMap` whose keys are compared as numbers: an association list in ascending order of keys.
use Prim.Native.Nat.{ℕ}
use mathlib.Core.Path.{◌≡◌, refl}
use mathlib.Core.List.{List, [], ◌∷◌}
use mathlib.Core.Option.{Option, none, some}
use native.Mathlib.Omega.{arith}
use dutch_auction.Base.Tests.{ltb, ◌==◌, if◌then◌else◌}

abbrev pub BTreeMap {ℓ} : Type ℓ → Type ℓ
BTreeMap V = List (ℕ × V)

module _ {ℓ} {V : Type ℓ} where
  -- `get`
  unfoldable pub lookup : ℕ → BTreeMap V → Option V
  lookup k [] = none
  lookup k ((j, v) ∷ m) = if j == k then some v else lookup k m

  -- `insert`: replaces the value of a key that is present
  unfoldable pub insert : ℕ → V → BTreeMap V → BTreeMap V
  insert k v [] = (k, v) ∷ []
  insert k v ((j, w) ∷ m) =
      if j == k then (k, v) ∷ m else if ltb k j then (k, v) ∷ (j, w) ∷ m else (j, w) ∷ insert k v m

  pub lookup-insert :
      (key other : ℕ) (v : V) (rest : BTreeMap V)
      → lookup other (insert key v rest) ≡ (if key == other then some v else lookup other rest)
  unfolding lookup insert
  lookup-insert key other v [] = refl
  lookup-insert key other v ((head, u) ∷ rest) = ground (arith, lookup-insert key other v rest)

  -- `get(..).copied().unwrap_or_default()`, and what `entry(..).or_default()` finds
  abbrev pub get_or : ℕ → V → BTreeMap V → V
  get_or k d m = elim (lookup k m) [ none ↦ d | some v ↦ v ]

  pub get_or-insert :
      (k j : ℕ) (v d : V) (m : BTreeMap V)
      → get_or j d (insert k v m) ≡ (if k == j then v else get_or j d m)
  get_or-insert k j v d m = ground (arith, lookup-insert k j v m)
