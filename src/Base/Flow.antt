-- ===== src/Base/Flow.antt =====
-- The body of a Python function with early returns: each statement raises, returns from the
-- function, or goes on. `run` gives the function's outcome.
use mathlib.Core.Path.{◌≡◌, refl, subst}
use mathlib.Core.Logic.{◌⊎◌, inl, inr}
use mathlib.Core.Bool.{Bool, true, false, not}
use crypto_bot_quant.Base.Tests.{if◌then◌else◌}
use crypto_bot_quant.Base.Result.{Exc, Result, ok, raised}

pub data Flow {ℓ κ} (R : Type ℓ) (A : Type κ) : Type (ℓ ⊔ κ) where
  fail : Exc → Flow R A
  return : R → Flow R A
  next : A → Flow R A

infixl 5 ◌>>=◌ ◌>>◌
abbrev pub ◌>>=◌ : {R A B : Type 0} → Flow R A → (A → Flow R B) → Flow R B
fail e >>= f = fail e
return r >>= f = return r
next a >>= f = f a

abbrev pub ◌>>◌ : {R B : Type 0} → Flow R (Unit {0}) → Flow R B → Flow R B
m >> k = m >>= λ _. k

-- `if b: return r`
abbrev pub return_if : {R : Type 0} → Bool → R → Flow R (Unit {0})
return_if true r = return r
return_if false r = next tt

-- A call whose exception is not caught.
abbrev pub call : {R A : Type 0} → Result A → Flow R A
call (ok a) = next a
call (raised e) = fail e

abbrev pub run : {R : Type 0} → Flow R R → Result R
run (fail e) = raised e
run (return r) = ok r
run (next r) = ok r

abbrev pub fails : {R A : Type 0} → Flow R A → Bool
fails (fail e) = true
fails (return r) = false
fails (next a) = false

-- What holds of the value that a statement returns, and of the one that it goes on with.
abbrev pub Ensures : {R A : Type 0} → (R → Type 0) → (A → Type 0) → Flow R A → Type 0
Ensures P Q (fail e) = Unit
Ensures P Q (return r) = P r
Ensures P Q (next a) = Q a

pub Ensures->>= :
    {R A B : Type 0} (P : R → Type 0) (Q : A → Type 0) (Q' : B → Type 0) (m : Flow R A)
    (k : A → Flow R B)
    → Ensures P Q m
    → ((a : A) → Q a → Ensures P Q' (k a))
    → Ensures P Q' (m >>= k)
Ensures->>= P Q Q' (fail e) k h g = tt
Ensures->>= P Q Q' (return r) k h g = h
Ensures->>= P Q Q' (next a) k h g = g a h

abbrev Returned : {R : Type 0} → (R → Type 0) → Result R → Type 0
Returned P (ok r) = P r
Returned P (raised e) = Unit

pub Ensures-run :
    {R : Type 0} (P : R → Type 0) (m : Flow R R) {r : R} → Ensures P P m → run m ≡ ok r → P r
Ensures-run P (fail e) h e' = cc
Ensures-run P (return r) h e = subst (λ x. Returned P x) e h
Ensures-run P (next r) h e = subst (λ x. Returned P x) e h

pub Ensures-then :
    {R A B : Type 0} (P : R → Type 0) (Q : B → Type 0) (m : Flow R A) (k : A → Flow R B)
    → Ensures P (λ _. Unit {0}) m
    → ((a : A) → Ensures P Q (k a))
    → Ensures P Q (m >>= k)
Ensures-then P Q (fail e) k h g = tt
Ensures-then P Q (return r) k h g = h
Ensures-then P Q (next a) k h g = g a

pub Ensures-outcome :
    {R : Type 0} (P Q : R → Type 0) (m : Flow R R) {r : R}
    → Ensures P Q m
    → run m ≡ ok r
    → P r ⊎ Q r
Ensures-outcome P Q (fail e) h e' = cc
Ensures-outcome P Q (return r) h e = inl (subst (Returned P) e h)
Ensures-outcome P Q (next r) h e = inr (subst (Returned Q) e h)

pub Ensures-call :
    {R A : Type 0} (P : R → Type 0) (r : Result A) → Ensures P (λ _. Unit {0}) (call r)
Ensures-call P (ok a) = tt
Ensures-call P (raised e) = tt

-- A body whose early returns are all excluded ends with its last statement.
pub next-of-run :
    {R : Type 0} (P Q : R → Type 0) (m : Flow R R) {r : R}
    → Ensures P Q m
    → run m ≡ ok r
    → ¬ (P r)
    → m ≡ next r
next-of-run P Q (fail e) h e' n = cc
next-of-run P Q (return r) h e n = absurd (n (subst (Returned P) e h))
next-of-run P Q (next r) h e n = cc

-- Inversion of a bind that goes on.
pub >>=-eq-next :
    {R A B : Type 0} (m : Flow R A) (k : A → Flow R B) {b : B}
    → (m >>= k) ≡ next b
    → (a : A) × (m ≡ next a) × (k a ≡ next b)
>>=-eq-next (fail e) k h = cc
>>=-eq-next (return r) k h = cc
>>=-eq-next (next a) k h = (a, refl, h)

pub call-eq-next : {R A : Type 0} (r : Result A) {a : A} → call {R = R} r ≡ next a → r ≡ ok a
call-eq-next (ok a) h = cc
call-eq-next (raised e) h = cc

-- Inversion of a call and of a guard at the head of a body that goes on.
pub call-then :
    {R A B : Type 0} (r : Result A) (k : A → Flow R B) {b : B}
    → (call r >>= k) ≡ next b
    → (a : A) × (r ≡ ok a) × (k a ≡ next b)
call-then (ok a) k h = (a, refl, h)
call-then (raised e) k h = cc

pub guard-then :
    {R B : Type 0} (c : Bool) (r : R) (k : Flow R B) {b : B}
    → (return_if c r >> k) ≡ next b
    → (c ≡ false) × (k ≡ next b)
guard-then true r k h = cc
guard-then false r k h = (refl, h)

pub Ensures-unless :
    {R : Type 0} (P : R → Type 0) (b : Bool) (r : R)
    → (b ≡ false → P r)
    → Ensures P (λ _. b ≡ true) (return_if (not b) r)
Ensures-unless P true r h = refl
Ensures-unless P false r h = h refl

pub Ensures-if :
    {R A : Type 0} (P : R → Type 0) (Q : A → Type 0) (b : Bool) (m k : Flow R A)
    → Ensures P Q m
    → Ensures P Q k
    → Ensures P Q (if b then m else k)
Ensures-if P Q true m k h g = h
Ensures-if P Q false m k h g = g

pub Ensures-call-value :
    {R A : Type 0} (P : R → Type 0) (Q : A → Type 0) (r : Result A)
    → ((a : A) → r ≡ ok a → Q a)
    → Ensures P Q (call r)
Ensures-call-value P Q (ok a) h = h a refl
Ensures-call-value P Q (raised e) h = tt
