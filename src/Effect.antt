-- ===== src/Effect.antt =====
-- Calls that change a state and may fail or panic: what a method of a Go object comes to.
use go_exasol.Base.{Option, none, some}
use go_exasol.Errors.{Error}
use go_exasol.Result.{Result, ok, err, panic}

abbrev pub Eff : Type 0 → Type 0 → Type 0
Eff S A = S → Result A × S

module _ {S : Type 0} where
  abbrev pub return : {A : Type 0} → A → Eff S A
  return a s = (ok a, s)

  abbrev pub fail : {A : Type 0} → Error → Eff S A
  fail e s = (err e, s)

  abbrev pub continue : {A B : Type 0} → Result A × S → (A → Eff S B) → Result B × S
  continue (ok a, s) f = f a s
  continue (err e, s) f = (err e, s)
  continue (panic, s) f = (panic, s)

  infixl 5 ◌>>=◌ ◌>>◌
  abbrev pub ◌>>=◌ : {A B : Type 0} → Eff S A → (A → Eff S B) → Eff S B
  ◌>>=◌ m f s = continue (m s) f

  abbrev pub ◌>>◌ : {B : Type 0} → Eff S (Unit {0}) → Eff S B → Eff S B
  m >> k = m >>= λ _. k

  -- A Go error, or nil.
  abbrev pub checked : Option Error → Eff S (Unit {0})
  checked none = return tt
  checked (some e) = fail e
