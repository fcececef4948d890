-- ===== src/Base/Store.antt =====
-- `?` in a method that reads and writes a store: the notation of a `do` block over `Stateful`.
use luminair_service_aws_dsq.Base.Outcome.{Result, ok, err, Stateful}

module _ {S E : Type 0} where
  infixl 5 ◌>>=◌ ◌>>◌
  abbrev pub ◌>>=◌ : {A B : Type 0} → Stateful S E A → (A → Stateful S E B) → Stateful S E B
  ◌>>=◌ m f s = let (r, s') = m s in elim r [ ok a ↦ f a s' | err e ↦ (err e, s') ]

  abbrev pub ◌>>◌ : {B : Type 0} → Stateful S E (Unit {0}) → Stateful S E B → Stateful S E B
  m >> k = m >>= λ _. k

  abbrev pub pure : {A : Type 0} → A → Stateful S E A
  pure a s = (ok a, s)

  abbrev pub fail : {A : Type 0} → E → Stateful S E A
  fail e s = (err e, s)

  -- A step that does not touch the store.
  abbrev pub lift : {A : Type 0} → Result E A → Stateful S E A
  lift r s = (r, s)
