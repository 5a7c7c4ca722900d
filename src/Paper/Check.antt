-- ===== src/Paper/Check.antt =====
-- internal/venue/paper.go: the early returns of `Place`: a refusal is a result that is recorded, a
-- failure an error.
use mathlib.Core.Path.{subst}
use cyp_agent.Base.{◌≡◌, refl, Bool, true, false, Text}
use cyp_agent.Decimal.{DecimalError, Result, ok, err, Decimal}
use cyp_agent.Paper.{Leverage, leverage_ok, leverage_err, leverage_message}

pub data Check (A : Type 0) : Type 0 where
  passes : A → Check A
  refuses : Text → Check A
  fails : DecimalError → Check A

infixl 5 ◌>>=◌ ◌>>◌
abbrev pub ◌>>=◌ : {A B : Type 0} → Check A → (A → Check B) → Check B
passes a >>= f = f a
refuses message >>= f = refuses message
fails e >>= f = fails e

abbrev pub ◌>>◌ : {B : Type 0} → Check (Unit {0}) → Check B → Check B
m >> k = m >>= λ _. k

abbrev pub check_result : {A : Type 0} → Result A → Check A
check_result (ok a) = passes a
check_result (err e) = fails e

abbrev pub check_leverage : (DecimalError → Text) → Leverage → Check Decimal
check_leverage describe (leverage_ok value) = passes value
check_leverage describe (leverage_err e) = refuses (leverage_message describe e)

abbrev pub check_that : Bool → Text → Check (Unit {0})
check_that true message = passes tt
check_that false message = refuses message

-- What holds of the value that a computation passes on.
abbrev pub Gives : {A : Type 0} → (A → Type 0) → Check A → Type 0
Gives P (passes a) = P a
Gives P (refuses message) = Unit
Gives P (fails e) = Unit

module _ {A B : Type 0} (P : B → Type 0) where
  pub Gives-bind :
      (m : Check A) (f : A → Check B) → ((a : A) → m ≡ passes a → Gives P (f a)) → Gives P (m >>= f)
  Gives-bind (passes a) f h = h a refl
  Gives-bind (refuses message) f h = tt
  Gives-bind (fails e) f h = tt

pub Gives-check_result :
    {A : Type 0} (P : A → Type 0) (r : Result A)
    → ((a : A) → r ≡ ok a → P a)
    → Gives P (check_result r)
Gives-check_result P (ok a) h = h a refl
Gives-check_result P (err e) h = tt

pub Gives-check_that :
    {A : Type 0} (P : A → Type 0) (b : Bool) (message : Text) (k : Check A)
    → (b ≡ true → Gives P k)
    → Gives P (check_that b message >> k)
Gives-check_that P true message k h = h refl
Gives-check_that P false message k h = tt

pub Gives-of_passes :
    {A : Type 0} (P : A → Type 0) (m : Check A) (a : A) → Gives P m → m ≡ passes a → P a
Gives-of_passes P m a g e = subst (Gives P) e g
