-- ===== src/Base/Maps.antt =====
-- Go maps as association lists, over a test for equal keys.
use mathlib.Core.Path.{◌≡◌, refl}
use mathlib.Core.Bool.{Bool, true}
use mathlib.Core.List.{List, [], ◌∷◌}
use mathlib.Core.Option.{Option, none, some}
use native.Mathlib.Omega.{arith}
use bitstar.Base.Tests.{if◌then◌else◌}

-- A test for equality that is an equivalence.
pub record IsEquality {ℓ} {K : Type ℓ} (same_key : K → K → Bool) : Type ℓ where
  pub reflexive : (a : K) → same_key a a ≡ true
  pub congruent : (a b c : K) → same_key a b ≡ true → same_key a c ≡ same_key b c

module _ {ℓ κ} {K : Type ℓ} {V : Type κ} (same_key : K → K → Bool) where
  -- `v, ok := m[k]`.
  unfoldable pub lookup_by : K → List (K × V) → Option V
  lookup_by k [] = none
  lookup_by k ((j, v) ∷ m) = if same_key j k then some v else lookup_by k m

  -- `m[k] = v`.
  unfoldable pub insert_by : K → V → List (K × V) → List (K × V)
  insert_by k v [] = (k, v) ∷ []
  insert_by k v ((j, w) ∷ m) = if same_key j k then (j, v) ∷ m else (j, w) ∷ insert_by k v m

  -- The entry written, or the default.
  abbrev pub entry_or : V → K → List (K × V) → V
  entry_or d k m = elim (lookup_by k m) [ none ↦ d | some v ↦ v ]

  pub lookup_by-insert_by :
      IsEquality same_key
      → (k j : K) (v : V) (m : List (K × V))
      → lookup_by j (insert_by k v m) ≡ (if same_key k j then some v else lookup_by j m)
  unfolding lookup_by insert_by
  lookup_by-insert_by eq k j v [] = refl
  lookup_by-insert_by eq k j v ((i, w) ∷ m) = ground (
    arith,
    lookup_by-insert_by eq k j v m,
    eq.congruent i k j,
    eq.congruent i j k,
    eq.congruent k j k,
    eq.reflexive k,
  )
