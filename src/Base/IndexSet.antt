-- ===== src/Base/IndexSet.antt =====
-- `IndexSet<T>` with an item's identity given by one of its fields (`Borrow<str>`): a list in
-- insertion order. An insertion of an item whose key is present leaves the set as it was.
use mathlib.Core.Path.{◌≡◌, refl, subst}
use mathlib.Core.Bool.{Bool, true, false, ◌||◌}
use mathlib.Core.Option.{Option, none, some}
use mathlib.Core.List.{List, [], ◌∷◌, ◌++◌}
use mathlib.Core.Logic.{inl, inr}
use native.Mathlib.Omega.{arith}
use luminair_service_aws_dsq.Base.Equality.{Eq, ◌==◌, if◌then◌else◌, Bool-cases}
use luminair_service_aws_dsq.Base.Outcome.{or_else}
use luminair_service_aws_dsq.Base.Lists.{All, All-append}

module _ {ℓ κ} {K : Type ℓ} {T : Type κ} ⦃e : Eq K⦄ (key : T → K) where
  unfoldable pub get : List T → K → Option T
  get [] k = none
  get (x ∷ xs) k = if k == key x then some x else get xs k

  abbrev pub contains : List T → K → Bool
  contains [] k = false
  contains (x ∷ xs) k = k == key x || contains xs k

  unfoldable pub insert : List T → T → List T
  insert xs x = if contains xs (key x) then xs else xs ++ x ∷ []

  abbrev pub HasDistinctKeys : List T → Type 0
  HasDistinctKeys [] = Unit
  HasDistinctKeys (x ∷ xs) = (contains xs (key x) ≡ false) × HasDistinctKeys xs

  get-append :
      (xs ys : List T) (k : K) → get (xs ++ ys) k ≡ (if contains xs k then get xs k else get ys k)
  unfolding get
  get-append [] ys k = refl
  get-append (x ∷ xs) ys k = ground (arith, get-append xs ys k)

  get-key : (xs : List T) (k : K) (x : T) → get xs k ≡ some x → key x ≡ k
  unfolding get
  get-key [] k x h = ground arith
  get-key (y ∷ xs) k x h = ground (arith, get-key xs k x)

  pub get-none_iff : (xs : List T) (k : K) → contains xs k ≡ false → get xs k ≡ none
  unfolding get
  get-none_iff [] k h = refl
  get-none_iff (x ∷ xs) k h = ground (arith, get-none_iff xs k)

  pub contains-append :
      (xs ys : List T) (k : K) → contains (xs ++ ys) k ≡ (contains xs k || contains ys k)
  contains-append [] ys k = refl
  contains-append (x ∷ xs) ys k = ground (arith, contains-append xs ys k)

  pub contains-insert :
      (xs : List T) (x : T) (k : K) → contains (insert xs x) k ≡ (contains xs k || k == key x)
  unfolding insert
  contains-insert xs x k = elim (Bool-cases (contains xs (key x))) [
    | inl old ↦ ground arith
    | inr fresh ↦ rw (fresh, contains-append xs (x ∷ []) k) (ground arith)
  ]

  pub get-insert :
      (xs : List T) (x : T) (k : K)
      → get (insert xs x) k
        ≡ (if contains xs k then get xs k else if k == key x then some x else none)
  unfolding insert
  get-insert xs x k = elim (Bool-cases (contains xs (key x))) [
    | inl old ↦ ground (arith, get-none_iff xs k)
    | inr fresh ↦ rw (fresh, get-append xs (x ∷ []) k) (unfold get in refl)
  ]

  pub get-insert_old :
      (xs : List T) (x : T) (k : K) → contains xs k ≡ true → get (insert xs x) k ≡ get xs k
  get-insert_old xs x k h = ground (arith, get-insert xs x k)

  pub get-contains : (xs : List T) (k : K) (x : T) → get xs k ≡ some x → contains xs k ≡ true
  unfolding get
  get-contains [] k x h = ground arith
  get-contains (y ∷ xs) k x h = ground (arith, get-contains xs k x)

  pub contains-get : (xs : List T) (k : K) → contains xs k ≡ true → (x : T) × (get xs k ≡ some x)
  unfolding get
  contains-get [] k h = ground arith
  contains-get (x ∷ xs) k h = elim (Bool-cases (k == key x)) [
    | inl here ↦ (x, ground arith)
    | inr later ↦ let found = contains-get xs k (ground arith) in (found.0, ground (arith, found.1))
  ]

module _ {ℓ κ μ} {K : Type ℓ} {T : Type κ} ⦃e : Eq K⦄ (key : T → K) (P : T → Type μ) where
  pub All-insert : (xs : List T) (x : T) → All P xs → P x → All P (insert key xs x)
  unfolding insert
  All-insert xs x hs h = elim (Bool-cases (contains key xs (key x))) [
    | inl old ↦ rw old hs
    | inr fresh ↦ rw fresh (All-append P xs (x ∷ []) hs (h, tt))
  ]

  pub All-get : (xs : List T) (k : K) (x : T) → All P xs → get key xs k ≡ some x → P x
  unfolding get
  All-get [] k x hs h = ground arith
  All-get (y ∷ xs) k x hs h = elim (Bool-cases (k == key y)) [
    | inl here ↦ subst P (ground arith) hs.0
    | inr later ↦ All-get xs k x hs.1 (ground arith)
  ]

module _ {ℓ κ} {K : Type ℓ} {T : Type κ} ⦃e : Eq K⦄ (key : T → K) where
  -- What was there is found first.
  pub get-insert-or_else :
      (xs : List T) (x : T) (k : K)
      → get key (insert key xs x) k ≡ or_else (get key xs k) (if k == key x then some x else none)
  get-insert-or_else xs x k = elim (Bool-cases (contains key xs k)) [
    | inl old ↦ let (y, found) = contains-get key xs k old in ground (arith, get-insert key xs x k)
    | inr fresh ↦ ground (arith, get-insert key xs x k, get-none_iff key xs k)
  ]

  pub get-append_or_else :
      (xs ys : List T) (k : K) → get key (xs ++ ys) k ≡ or_else (get key xs k) (get key ys k)
  unfolding get
  get-append_or_else [] ys k = refl
  get-append_or_else (x ∷ xs) ys k = ground (arith, get-append_or_else xs ys k)

  pub append-HasDistinctKeys :
      (xs : List T) (x : T)
      → HasDistinctKeys key xs
      → contains key xs (key x) ≡ false
      → HasDistinctKeys key (xs ++ x ∷ [])
  append-HasDistinctKeys [] x _ _ = (refl, tt)
  append-HasDistinctKeys (y ∷ ys) x (hy, hs) fresh = (
    ground (arith, contains-append key ys (x ∷ []) (key y)),
    append-HasDistinctKeys ys x hs (ground arith),
  )

-- An item that is found by one key is found by another, where that is distinct.
module _ {ℓ κ} {K : Type ℓ} {T : Type κ} ⦃e : Eq K⦄ (key other : T → K) where
  contains-found :
      (xs : List T) (k : K) (x : T) → get key xs k ≡ some x → contains other xs (other x) ≡ true
  unfolding get
  contains-found [] k x h = cc
  contains-found (y ∷ xs) k x h = ground (arith, contains-found xs k x)

  pub get-found :
      (xs : List T) (k : K) (x : T)
      → HasDistinctKeys other xs
      → get key xs k ≡ some x
      → get other xs (other x) ≡ some x
  unfolding get
  get-found [] k x _ h = cc
  get-found (y ∷ xs) k x (fresh, u) h = ground (arith, get-found xs k x u, contains-found xs k x)
