-- ===== src/Base/Result.antt =====
-- A Python call: it returns a value or raises. Only the exceptions that the modelled code can meet
-- are told apart.
use mathlib.Core.Path.{◌≡◌, refl, sym, subst}
use mathlib.Core.Bool.{Bool, true, false}
use mathlib.Core.Logic.{◌⊎◌, inl, inr}

pub data Exc : Type 0 where
  value_error overflow_error type_error zero_division_error key_error permission_error os_error
        recursion_error assertion_error :
      Exc

pub data Result {ℓ} (A : Type ℓ) : Type ℓ where
  ok : A → Result A
  raised : Exc → Result A

infixl 5 ◌>>=◌
abbrev pub ◌>>=◌ {ℓ κ} : {A : Type ℓ} {B : Type κ} → Result A → (A → Result B) → Result B
ok a >>= f = f a
raised e >>= f = raised e

abbrev pub map {ℓ κ} : {A : Type ℓ} {B : Type κ} → (A → B) → Result A → Result B
map f (ok a) = ok (f a)
map f (raised e) = raised e

abbrev pub raises {ℓ} : {A : Type ℓ} → Result A → Bool
raises (ok a) = false
raises (raised e) = true

pub Result-cases {ℓ} :
    {A : Type ℓ} (r : Result A) → ((a : A) × (r ≡ ok a)) ⊎ ((e : Exc) × (r ≡ raised e))
Result-cases (ok a) = inl (a, refl)
Result-cases (raised e) = inr (e, refl)

pub ok_inj {ℓ} : {A : Type ℓ} {a b : A} → ok a ≡ ok b → a ≡ b
ok_inj h = cc

-- Inversion of a chain and of a map that return.
pub >>=-eq-ok {ℓ κ} :
    {A : Type ℓ} {B : Type κ} (r : Result A) (k : A → Result B) {b : B}
    → (r >>= k) ≡ ok b
    → (a : A) × (r ≡ ok a) × (k a ≡ ok b)
>>=-eq-ok (ok a) k h = (a, refl, h)
>>=-eq-ok (raised e) k h = cc

pub map-eq-ok {ℓ κ} :
    {A : Type ℓ} {B : Type κ} (g : A → B) (r : Result A) {b : B}
    → map g r ≡ ok b
    → (a : A) × (r ≡ ok a) × (g a ≡ b)
map-eq-ok g (ok a) h = (a, refl, ok_inj h)
map-eq-ok g (raised e) h = cc

pub >>=-returns {ℓ κ} :
    {A : Type ℓ} {B : Type κ} (r : Result A) (k : A → Result B) (a : A)
    → r ≡ ok a
    → (b : B) × (k a ≡ ok b)
    → (b : B) × ((r >>= k) ≡ ok b)
>>=-returns (ok x) k a e h = subst (λ y. (b : _) × (k y ≡ ok b)) (sym (ok_inj e)) h
>>=-returns (raised x) k a e h = cc
