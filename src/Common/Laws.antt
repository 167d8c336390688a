-- ===== src/Common/Laws.antt =====
-- src/common.rs: what a call returns that neither fails nor panics.
use bf_rs.Prelude.{◌≡◌, refl}
use bf_rs.Common
use bf_rs.Common.{Result, ok, err, panic}

-- The call returns, and `P` holds of what it returns.
abbrev pub Yields {ℓ} : {A : Type ℓ} → (A → Type 0) → Result A → Type 0
Yields P (ok a) = P a
Yields P (err e) = ⊥
Yields P panic = ⊥

pub Yields-bind {ℓ κ} :
    {A : Type ℓ} {B : Type κ} {P : A → Type 0} (Q : B → Type 0) (r : Result A) (f : A → Result B)
    → Yields P r
    → ((a : A) → P a → Yields Q (f a))
    → Yields Q (Common.◌>>=◌ r f)
Yields-bind Q (ok a) f h k = k a h
Yields-bind Q (err e) f h k = absurd h
Yields-bind Q panic f h k = absurd h

pub Yields-map {ℓ} :
    {A : Type ℓ} {P Q : A → Type 0} (k : (a : A) → P a → Q a) (r : Result A)
    → Yields P r
    → Yields Q r
Yields-map k (ok a) h = k a h
Yields-map k (err e) h = h
Yields-map k panic h = h

pub Yields-ok {ℓ} :
    {A : Type ℓ} (P : A → Type 0) (r : Result A) → Yields P r → (a : A) × (r ≡ ok a) × P a
Yields-ok P (ok a) h = (a, refl, h)
Yields-ok P (err e) h = absurd h
Yields-ok P panic h = absurd h
