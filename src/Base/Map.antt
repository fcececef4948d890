-- ===== src/Base/Map.antt =====
-- `HashMap<K, V>` as an association list. The order of the entries stands for the order in which
-- the table happens to iterate; no operation lists a key twice.
use mathlib.Core.Path.{◌≡◌, refl}
use mathlib.Core.Bool.{true}
use mathlib.Core.Option.{Option, none, some}
use mathlib.Core.List.{List, [], ◌∷◌}
use native.Mathlib.Omega.{arith}
use luminair_service_aws_dsq.Base.Equality.{Eq, ◌==◌, if◌then◌else◌}
use luminair_service_aws_dsq.Base.Lists.{All}
use luminair_service_aws_dsq.Base.Lists

abbrev pub HashMap {ℓ κ} : Type ℓ → Type κ → Type (ℓ ⊔ κ)
HashMap K V = List (K × V)

module _ {ℓ κ} {K : Type ℓ} {V : Type κ} where
  unfoldable pub keys : HashMap K V → List K
  keys [] = []
  keys ((k, v) ∷ m) = k ∷ keys m

module _ {ℓ κ} {K : Type ℓ} {V : Type κ} ⦃e : Eq K⦄ where
  unfoldable pub get : HashMap K V → K → Option V
  get [] k = none
  get ((j, v) ∷ m) k = if k == j then some v else get m k

  unfoldable pub insert : HashMap K V → K → V → HashMap K V
  insert [] k v = (k, v) ∷ []
  insert ((j, w) ∷ m) k v = if k == j then (k, v) ∷ m else (j, w) ∷ insert m k v

  unfoldable pub remove : HashMap K V → K → HashMap K V
  remove [] k = []
  remove ((j, w) ∷ m) k = let rest = remove m k in if k == j then rest else (j, w) ∷ rest

  -- No key is listed twice.
  abbrev pub HasDistinctKeys : HashMap K V → Type κ
  HasDistinctKeys [] = Unit
  HasDistinctKeys ((k, _) ∷ m) = (get m k ≡ none) × HasDistinctKeys m

  pub get-keys :
      (m : HashMap K V) (k : K) (v : V) → get m k ≡ some v → Lists.contains (keys m) k ≡ true
  unfolding get keys
  get-keys [] k v h = cc
  get-keys ((j, w) ∷ m) k v h = ground (arith, get-keys m k v)

  pub get-insert :
      (m : HashMap K V) (k j : K) (v : V)
      → get (insert m k v) j ≡ (if j == k then some v else get m j)
  unfolding get insert
  get-insert [] k j v = refl
  get-insert ((i, w) ∷ m) k j v = ground (arith, get-insert m k j v)

  pub get-insert_self : (m : HashMap K V) (k : K) (v : V) → get (insert m k v) k ≡ some v
  get-insert_self m k v = ground (arith, get-insert m k k v)

  pub get-remove :
      (m : HashMap K V) (k j : K) → get (remove m k) j ≡ (if j == k then none else get m j)
  unfolding get remove
  get-remove [] k j = ground arith
  get-remove ((i, w) ∷ m) k j = ground (arith, get-remove m k j)

  pub insert-HasDistinctKeys :
      (m : HashMap K V) (k : K) (v : V) → HasDistinctKeys m → HasDistinctKeys (insert m k v)
  unfolding insert get
  insert-HasDistinctKeys [] k v _ = (refl, tt)
  insert-HasDistinctKeys ((j, _) ∷ m) k v (fresh, u) =
      ground (arith, insert-HasDistinctKeys m k v u, get-insert m k j v)

module _ {ℓ κ μ} {K : Type ℓ} {V : Type κ} ⦃e : Eq K⦄ (P : K → Type μ) where
  -- What holds of all keys holds of a key that is found.
  pub All-keys_get : (m : HashMap K V) (k : K) (v : V) → All P (keys m) → get m k ≡ some v → P k
  unfolding keys get
  All-keys_get [] k v h found = cc
  All-keys_get ((j, w) ∷ m) k v h found = elim (e.dec k j) [
    | yes same ↦ rw same h.0
    | no differ ↦ All-keys_get m k v h.1 (ground arith)
  ]

  pub All-keys_of_get :
      (m : HashMap K V) → ((k : K) (v : V) → get m k ≡ some v → P k) → All P (keys m)
  unfolding keys get
  All-keys_of_get [] h = tt
  All-keys_of_get ((j, w) ∷ m) h = (
    h j w (ground arith),
    All-keys_of_get m λ k v found. elim (e.dec k j) [
      | yes same ↦ rw same (h j w (ground arith))
      | no differ ↦ h k v (ground arith)
    ],
  )
