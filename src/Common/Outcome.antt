-- ===== src/Common/Outcome.antt =====
-- How a C function ends: it returns, it calls `panic`, or it does what C leaves undefined (a read
-- outside a buffer, a NULL pointer followed).
use mathlib.Core.Path.{◌≡◌, refl}
use mathlib.Core.Option.{Option, none, some}

pub data Outcome {ℓ} (A : Type ℓ) : Type ℓ where
  ok : A → Outcome A
  panicked : Outcome A
  fault : Outcome A

abbrev pub read {ℓ} : {A : Type ℓ} → Option A → Outcome A
read none = fault
read (some a) = ok a

infixl 5 ◌>>=◌
abbrev pub ◌>>=◌ {ℓ κ} : {A : Type ℓ} {B : Type κ} → Outcome A → (A → Outcome B) → Outcome B
ok a >>= f = f a
panicked >>= f = panicked
fault >>= f = fault

pub read-fault {ℓ κ} :
    {A : Type ℓ} {B : Type κ} (o : Option A) → ◌>>=◌ {B = B} (read o) (λ _. fault) ≡ fault
read-fault none = refl
read-fault (some a) = refl

-- Inversion of a chain that returns.
pub bind-eq-ok {ℓ κ} :
    {A : Type ℓ} {B : Type κ} (m : Outcome A) (f : A → Outcome B) {b : B}
    → (m >>= f) ≡ ok b
    → (a : A) × (m ≡ ok a) × (f a ≡ ok b)
bind-eq-ok (ok a) f h = (a, refl, h)
bind-eq-ok panicked f h = cc
bind-eq-ok fault f h = cc

pub read-eq-ok {ℓ} : {A : Type ℓ} (o : Option A) {a : A} → read o ≡ ok a → o ≡ some a
read-eq-ok none h = cc
read-eq-ok (some a) h = cc
