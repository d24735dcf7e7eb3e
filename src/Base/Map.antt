-- ===== src/Base/Map.antt =====
-- A JavaScript `Map`: entries in the order of their first insertion. `set` on a present key keeps
-- the entry's place, and on a new one appends.
use Prim.Native.Nat.{ℕ, ◌+◌, ◌≤◌}
use mathlib.Core.Path.{◌≡◌, refl}
use mathlib.Core.Bool.{Bool}
use mathlib.Core.Option.{Option, none, some}
use mathlib.Core.List.{List, [], ◌∷◌}
use native.Mathlib.Omega.{arith}
use deepseek_harness_relay_m.Base.Tests.{Equality, ◌==◌, if◌then◌else◌, is_some}
use deepseek_harness_relay_m.Base.Lists.{All, length}

abbrev pub Map {ℓ κ} : Type ℓ → Type κ → Type (ℓ ⊔ κ)
Map K V = List (K × V)

module _ {ℓ κ} {K : Type ℓ} {V : Type κ} where
  -- `[...m.values()]`
  abbrev pub values : Map K V → List V
  values [] = []
  values ((k, v) ∷ m) = v ∷ values m

  abbrev pub size : Map K V → ℕ
  size = length

module _ {ℓ κ} {K : Type ℓ} {V : Type κ} ⦃e : Equality K⦄ where
  unfoldable pub get : Map K V → K → Option V
  get [] k = none
  get ((j, v) ∷ m) k = if j == k then some v else get m k

  unfoldable pub set : Map K V → K → V → Map K V
  set [] k v = (k, v) ∷ []
  set ((j, w) ∷ m) k v = if j == k then (k, v) ∷ m else (j, w) ∷ set m k v

  unfoldable pub delete : Map K V → K → Map K V
  delete [] k = []
  delete ((j, v) ∷ m) k = if j == k then delete m k else (j, v) ∷ delete m k

  abbrev pub has : Map K V → K → Bool
  has m k = is_some (get m k)

  pub get-set :
      (m : Map K V) (k j : K) (v : V) → get (set m k v) j ≡ (if k == j then some v else get m j)
  unfolding get set
  get-set [] k j v = refl
  get-set ((i, w) ∷ m) k j v =
      ground (arith, e.equal_iff i k, e.equal_iff i j, e.equal_iff k j, get-set m k j v)

  pub get-delete : (m : Map K V) (k j : K) → get (delete m k) j ≡ (if k == j then none else get m j)
  unfolding get delete
  get-delete [] k j = ground arith
  get-delete ((i, w) ∷ m) k j =
      ground (arith, e.equal_iff i k, e.equal_iff i j, e.equal_iff k j, get-delete m k j)

  pub set-set : (m : Map K V) (k : K) (v w : V) → set (set m k v) k w ≡ set m k w
  unfolding set
  set-set [] k v w = ground (arith, e.equal_iff k k)
  set-set ((i, u) ∷ m) k v w = ground (arith, e.equal_iff k k, e.equal_iff i k, set-set m k v w)

  pub size-set-le : (m : Map K V) (k : K) (v : V) → size (set m k v) ≤ size m + 1
  unfolding set
  size-set-le [] k v = omega arith
  size-set-le ((i, w) ∷ m) k v = ground (arith, size-set-le m k v)

  pub size-delete-le : (m : Map K V) (k : K) → size (delete m k) ≤ size m
  unfolding delete
  size-delete-le [] k = omega arith
  size-delete-le ((i, w) ∷ m) k = ground (arith, size-delete-le m k)

  pub All-set {μ} :
      (P : V → Type μ) (m : Map K V) (k : K) (v : V)
      → P v
      → All P (values m)
      → All P (values (set m k v))
  unfolding set
  All-set P [] k v p h = (p, tt)
  All-set P ((i, w) ∷ m) k v p h = ground (arith, All-set P m k v p h.1)

  pub All-delete {μ} :
      (P : V → Type μ) (m : Map K V) (k : K) → All P (values m) → All P (values (delete m k))
  unfolding delete
  All-delete P [] k h = h
  All-delete P ((i, w) ∷ m) k h = ground (arith, All-delete P m k h.1)

  pub All-get {μ} :
      (P : V → Type μ) (m : Map K V) (k : K) (v : V) → All P (values m) → get m k ≡ some v → P v
  unfolding get
  All-get P [] k v h g = absurd (cc)
  All-get P ((i, w) ∷ m) k v h g = ground (arith, All-get P m k v h.1)

pub ruleset map_laws = (get-set, get-delete)
