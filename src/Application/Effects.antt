-- ===== src/Application/Effects.antt =====
-- Steps of a service method over a store, and rules by which a proof follows them.
use luminair_service_aws_dsq.Base.{
  Bool, Result, ok, err, map_err, Stateful, ◌≡◌, refl, ◌⊎◌, inl, if◌then◌else◌, arith,
}
use luminair_service_aws_dsq.Base.Store.{◌>>=◌, ◌>>◌, lift}
use luminair_service_aws_dsq.Domain.Errors.{DomainError}
use luminair_service_aws_dsq.Application.Errors.{ApplicationError, domain}

module _ {S A : Type 0} where
  -- `repo.find(…).await?`
  abbrev pub query : (S → Result DomainError A) → Stateful S ApplicationError A
  query q s = (map_err domain (q s), s)

  -- `repo.save(…).await?`
  abbrev pub command : Stateful S DomainError A → Stateful S ApplicationError A
  command m s = let (r, s') = m s in (map_err domain r, s')

module _ {S E A : Type 0} where
  -- A read that fails with the method's own error.
  abbrev pub read : (S → Result E A) → Stateful S E A
  read r s = (r s, s)

module _ {S : Type 0} where
  -- `if bad { return Err(e) }`
  abbrev pub reject_if : Bool → ApplicationError → Stateful S ApplicationError (Unit {0})
  reject_if bad e s = (if bad then err e else ok tt, s)

-- A method on a local `&mut` value, of which only the final value counts.
abbrev pub settled :
    {A : Type 0} → Stateful A ApplicationError (Unit {0}) → A → Result ApplicationError A
settled m a = let (r, a') = m a in elim r [ ok _ ↦ ok a' | err e ↦ err e ]

module _ {S E A B : Type 0} (Q : Result E B × S → Type 0) where
  -- After a step that only reads, the store is the same.
  pub read_rule :
      (r : Result E A) (f : A → Stateful S E B) (s : S)
      → ((e : E) → r ≡ err e → Q (err e, s))
      → ((a : A) → r ≡ ok a → Q (f a s))
      → Q ((lift r >>= f) s)
  read_rule (ok a) f s bad good = good a refl
  read_rule (err e) f s bad good = bad e refl

module _ {S : Type 0} where
  -- A step whose result is known, and what follows it.
  abbrev pub then_at :
      {A B : Type 0}
      → Result ApplicationError A
      → (A → Result ApplicationError B × S)
      → S
      → Result ApplicationError B × S
  then_at r k s = elim r [ ok a ↦ k a | err e ↦ (err e, s) ]

  -- The store is unchanged, or what came of it has the property `W`.
  pub read_step_to :
      {A B : Type 0} (W : S → Type 0) (s : S) (r : Result ApplicationError A)
      (k : A → Result ApplicationError B × S)
      → ((a : A) → r ≡ ok a → ((k a).1 ≡ s) ⊎ W (k a).1)
      → ((then_at r k s).1 ≡ s) ⊎ W (then_at r k s).1
  read_step_to W s (ok a) k next = next a refl
  read_step_to W s (err e) k next = inl refl

  -- A step that leads to a result has had one itself.
  pub then_at-ok :
      {A B : Type 0} (r : Result ApplicationError A) (k : A → Result ApplicationError B × S) (s : S)
      {b : B}
      → (then_at r k s).0 ≡ ok b
      → (a : A) × (r ≡ ok a) × ((k a).0 ≡ ok b)
  then_at-ok (ok a) k s h = (a, refl, h)
  then_at-ok (err e) k s h = absurd (ground arith)

module _ {S E B : Type 0} where
  -- A sequence that succeeds has succeeded in its first step, and goes on from its store.
  pub then_ok :
      (m : Stateful S E (Unit {0})) (k : Stateful S E B) (s : S) {b : B}
      → ((m >> k) s).0 ≡ ok b
      → ((m s).0 ≡ ok tt) × ((m >> k) s ≡ k (m s).1)
  then_ok m k s h = go (m s).0 refl
    where
      go : (r : Result E (Unit {0})) → (m s).0 ≡ r → ((m s).0 ≡ ok tt) × ((m >> k) s ≡ k (m s).1)
      go (ok u) e = (e, rw (e, ◌>>=◌))
      go (err x) e = absurd (ground arith)
