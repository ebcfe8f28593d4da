-- ===== src/Common/Maps.antt =====
-- JavaScript's `Map`, on its entries in insertion order.
use mathlib.Core.Path.{◌≡◌, refl}
use mathlib.Core.Option.{Option, none, some}
use mathlib.Core.List.{List, [], ◌∷◌}
use native.Mathlib.Omega.{arith}
use stellar_facilitator.Common.Tests.{if◌then◌else◌}
use stellar_facilitator.Common.Equality.{Eq, ◌==◌, ==_iff}

module _ {ℓ κ} {K : Type ℓ} {V : Type κ} ⦃e : Eq K⦄ where
  -- `map.get(key)`, `map.set(key, value)` and `map.delete(key)`.
  unfoldable pub map_get : K → List (K × V) → Option V
  map_get key [] = none
  map_get key ((k, v) ∷ entries) =
      let later = map_get key entries in if k == key then some v else later

  unfoldable pub map_set : K → V → List (K × V) → List (K × V)
  map_set key v [] = (key, v) ∷ []
  map_set key v ((k, w) ∷ entries) =
      let later = map_set key v entries in if k == key then (k, v) ∷ entries else (k, w) ∷ later

  unfoldable pub map_delete : K → List (K × V) → List (K × V)
  map_delete key [] = []
  map_delete key ((k, w) ∷ entries) =
      let later = map_delete key entries in if k == key then later else (k, w) ∷ later

  pub map_get-map_set :
      (key k : K) (v : V) (entries : List (K × V))
      → map_get key (map_set k v entries) ≡ (if k == key then some v else map_get key entries)
  unfolding map_get map_set
  map_get-map_set key k v [] = refl
  map_get-map_set key k v ((j, w) ∷ entries) =
      ground (arith, map_get-map_set key k v entries, ==_iff j k, ==_iff j key, ==_iff k key)

  pub map_get-map_delete :
      (key k : K) (entries : List (K × V))
      → map_get key (map_delete k entries) ≡ (if k == key then none else map_get key entries)
  unfolding map_get map_delete
  map_get-map_delete key k [] = ground arith
  map_get-map_delete key k ((j, w) ∷ entries) =
      ground (arith, map_get-map_delete key k entries, ==_iff j k, ==_iff j key, ==_iff k key)
