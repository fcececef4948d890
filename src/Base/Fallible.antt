-- ===== src/Base/Fallible.antt =====
-- `?` in a function that returns a `Result`: the notation of a `do` block over results.
use mathlib.Core.Path.{◌≡◌, refl}
use luminair_service_aws_dsq.Base.Outcome.{Result, ok, err, map_err}

infixl 5 ◌>>=◌ ◌>>◌
abbrev pub ◌>>=◌ {ℓ κ μ} :
    {E : Type ℓ} {A : Type κ} {B : Type μ} → Result E A → (A → Result E B) → Result E B
ok value >>= next = next value
err failure >>= next = err failure

abbrev pub ◌>>◌ {ℓ κ} : {E : Type ℓ} {B : Type κ} → Result E (Unit {0}) → Result E B → Result E B
step >> rest = step >>= λ _. rest

-- What holds of the value, where there is one.
abbrev pub Yields {ℓ κ μ} : {E : Type ℓ} {A : Type κ} → (A → Type μ) → Result E A → Type μ
Yields P (ok value) = P value
Yields P (err _) = Unit

pub bind-Yields {ℓ κ μ ν π} :
    {E : Type ℓ} {A : Type κ} {B : Type μ} (P : A → Type ν) (Q : B → Type π) (r : Result E A)
    (next : A → Result E B)
    → Yields P r
    → ((a : A) → P a → Yields Q (next a))
    → Yields Q (r >>= next)
bind-Yields P Q (ok a) next h k = k a h
bind-Yields P Q (err e) next h k = tt

pub Yields-all {ℓ κ μ} :
    {E : Type ℓ} {A : Type κ} (P : A → Type μ) (r : Result E A)
    → ((a : A) → r ≡ ok a → P a)
    → Yields P r
Yields-all P (ok a) h = h a refl
Yields-all P (err e) h = tt

pub Yields-ok {ℓ κ μ} :
    {E : Type ℓ} {A : Type κ} (P : A → Type μ) (r : Result E A) (a : A)
    → Yields P r
    → r ≡ ok a
    → P a
Yields-ok P r a h e = rw e at h

-- Whatever the first step gives, the rest yields it.
pub any_value {ℓ κ μ ν} :
    {E : Type ℓ} {A : Type κ} {B : Type μ} (Q : B → Type ν) (r : Result E A) (next : A → Result E B)
    → ((a : A) → Yields Q (next a))
    → Yields Q (r >>= next)
any_value Q (ok a) next h = h a
any_value Q (err e) next h = tt

pub map_err-Yields {ℓ κ μ ν} :
    {E : Type ℓ} {F : Type κ} {A : Type μ} (P : A → Type ν) (f : E → F) (r : Result E A)
    → Yields P r
    → Yields P (map_err f r)
map_err-Yields P f (ok a) h = h
map_err-Yields P f (err e) h = tt

-- What follows of a value from two facts about it.
pub Yields-both {ℓ κ μ ν π} :
    {E : Type ℓ} {A : Type κ} (P : A → Type μ) (Q : A → Type ν) (R : A → Type π) (r : Result E A)
    → Yields P r
    → Yields Q r
    → ((a : A) → P a → Q a → R a)
    → Yields R r
Yields-both P Q R (ok a) p q k = k a p q
Yields-both P Q R (err e) p q k = tt
