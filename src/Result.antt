-- ===== src/Result.antt =====
-- What a call of the driver comes to: a value, a Go error, or a panic of the runtime.
use go_exasol.Base.{◌≡◌, refl, Option, none, some}
use go_exasol.Errors.{Error}

pub data Result {ℓ} (A : Type ℓ) : Type ℓ where
  ok : A → Result A
  err : Error → Result A
  panic : Result A

infixl 5 ◌>>=◌ ◌>>◌
abbrev pub ◌>>=◌ {ℓ κ} : {A : Type ℓ} {B : Type κ} → Result A → (A → Result B) → Result B
ok a >>= f = f a
err e >>= f = err e
panic >>= f = panic

abbrev pub ◌>>◌ {ℓ} : {B : Type ℓ} → Result (Unit {0}) → Result B → Result B
m >> k = m >>= λ _. k

-- Indexing and dereferencing panic where there is nothing.
abbrev pub or_panic {ℓ} : {A : Type ℓ} → Option A → Result A
or_panic none = panic
or_panic (some a) = ok a

-- Two continuations that agree make two equal chains.
pub >>=_regroup {ℓ κ μ} :
    {A : Type ℓ} {B : Type κ} {C : Type μ} (r : Result A) (f : A → Result C) (g : A → Result B)
    (k : B → Result C)
    → ((a : A) → f a ≡ (g a >>= k))
    → (r >>= f) ≡ ((r >>= g) >>= k)
>>=_regroup (ok a) f g k h = h a
>>=_regroup (err e) f g k h = refl
>>=_regroup panic f g k h = refl

-- The call returns, and `P` holds of what it returns.
abbrev pub Succeeds {ℓ} : {A : Type ℓ} → (A → Type 0) → Result A → Type 0
Succeeds P (ok d) = P d
Succeeds P (err e) = ⊥
Succeeds P panic = ⊥
