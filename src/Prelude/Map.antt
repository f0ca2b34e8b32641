-- ===== src/Prelude/Map.antt =====
-- JavaScript's `Map` with text keys: the entries in the order of their first insertion.
use Prim.Native.String.{String}
use mathlib.Core.Path.{◌≡◌, refl}
use mathlib.Core.Option.{Option, none, some}
use mathlib.Core.List.{List, [], ◌∷◌}
use native.Mathlib.Omega.{arith}
use solana_kit_plugins.Prelude.Tests.{if◌then◌else◌}
use solana_kit_plugins.Prelude.Keys.{◌===◌, ===_iff}

abbrev pub Map {ℓ} : Type ℓ → Type ℓ
Map V = List (String × V)

module _ {ℓ} {V : Type ℓ} where
  -- m.get(k)
  unfoldable pub get : Map V → String → Option V
  get [] k = none
  get ((j, v) ∷ m) k = if j === k then some v else get m k

  -- m.set(k, v): an old key keeps its place
  unfoldable pub set : Map V → String → V → Map V
  set [] k v = (k, v) ∷ []
  set ((j, w) ∷ m) k v = if j === k then (j, v) ∷ m else (j, w) ∷ set m k v

  -- m.delete(k)
  unfoldable pub delete : Map V → String → Map V
  delete [] k = []
  delete ((j, w) ∷ m) k = let rest = delete m k in if j === k then rest else (j, w) ∷ rest

  pub get-set :
      (m : Map V) (k j : String) (v : V) → get (set m k v) j ≡ (if k === j then some v else get m j)
  unfolding get set
  get-set [] k j v = refl
  get-set ((i, w) ∷ m) k j v =
      ground (arith, ===_iff k j, ===_iff i k, ===_iff i j, get-set m k j v)

  pub get-delete :
      (m : Map V) (k j : String) → get (delete m k) j ≡ (if k === j then none else get m j)
  unfolding get delete
  get-delete [] k j = ground arith
  get-delete ((i, w) ∷ m) k j =
      ground (arith, ===_iff k j, ===_iff i k, ===_iff i j, get-delete m k j)

  pub get-empty : (k : String) → get [] k ≡ none
  unfolding get
  get-empty k = refl
