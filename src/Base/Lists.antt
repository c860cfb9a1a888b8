-- ===== src/Base/Lists.antt =====
-- Lists measured by native numbers, Python's loops over them, and predicates on every item.
use Prim.Native.Nat.{ℕ, suc, ◌+◌, ◌≤◌, Ordering}
use Prim.Native.String as Text
use Prim.Native.String.{String}
use mathlib.Core.Path.{◌≡◌, refl, ◌∙◌, ap}
use mathlib.Core.Bool.{Bool, true, false, ◌||◌, ◌&&◌}
use mathlib.Core.List.{List, [], ◌∷◌, ◌++◌}
use native.Mathlib.Omega.{arith}
use crypto_bot_quant.Base.Tests.{if◌then◌else◌, str_eq}

module _ {ℓ} {A : Type ℓ} where
  abbrev pub length : List A → ℕ
  length [] = 0
  length (_ ∷ xs) = suc (length xs)

  -- `[x for x in xs if p(x)]`
  abbrev pub select : (A → Bool) → List A → List A
  select p [] = []
  select p (x ∷ xs) = let rest = select p xs in if p x then x ∷ rest else rest

  -- `sum(1 for x in xs if p(x))`
  abbrev pub count_if : (A → Bool) → List A → ℕ
  count_if p [] = 0
  count_if p (x ∷ xs) = let rest = count_if p xs in if p x then suc rest else rest

  abbrev pub any : (A → Bool) → List A → Bool
  any p [] = false
  any p (x ∷ xs) = p x || any p xs

  abbrev pub all : (A → Bool) → List A → Bool
  all p [] = true
  all p (x ∷ xs) = p x && all p xs

  abbrev pub All {κ} : (A → Type κ) → List A → Type κ
  All P [] = Unit
  All P (x ∷ xs) = P x × All P xs

  pub append_assoc : (xs ys zs : List A) → (xs ++ ys) ++ zs ≡ xs ++ (ys ++ zs)
  append_assoc [] ys zs = refl
  append_assoc (x ∷ xs) ys zs = ap (λ l. x ∷ l) (append_assoc xs ys zs)

  pub length-append : (xs ys : List A) → length (xs ++ ys) ≡ length xs + length ys
  length-append [] ys = omega arith
  length-append (x ∷ xs) ys = omega (arith, length-append xs ys)

  pub count_if-le-length : (p : A → Bool) (xs : List A) → count_if p xs ≤ length xs
  count_if-le-length p [] = omega arith
  count_if-le-length p (x ∷ xs) = ground (arith, count_if-le-length p xs)

pub All-map {ℓ κ μ} :
    {A : Type ℓ} (P : A → Type κ) (Q : A → Type μ) (xs : List A)
    → ((x : A) → P x → Q x)
    → All P xs
    → All Q xs
All-map P Q [] g h = tt
All-map P Q (x ∷ xs) g h = (g x h.0, All-map P Q xs g h.1)

pub All-zip {ℓ κ μ ν} :
    {A : Type ℓ} (P : A → Type κ) (Q : A → Type μ) (R : A → Type ν) (xs : List A)
    → ((x : A) → P x → Q x → R x)
    → All P xs
    → All Q xs
    → All R xs
All-zip P Q R [] g h k = tt
All-zip P Q R (x ∷ xs) g h k = (g x h.0 k.0, All-zip P Q R xs g h.1 k.1)

-- `s in xs`, on a list or a set of texts.
abbrev pub elem : String → List String → Bool
elem s [] = false
elem s (x ∷ xs) = str_eq s x || elem s xs

-- `sorted(xs)`, on texts, by insertion.
abbrev pub insert_sorted : String → List String → List String
insert_sorted s [] = s ∷ []
insert_sorted s (x ∷ xs) =
    let rest = insert_sorted s xs in
    elim (Text.compare s x) [ Ordering.gt ↦ x ∷ rest | _ ↦ s ∷ (x ∷ xs) ]

unfoldable pub sorted : List String → List String
sorted [] = []
sorted (x ∷ xs) = insert_sorted x (sorted xs)

elem-insert_sorted :
    (a s : String) (xs : List String) → elem a (insert_sorted s xs) ≡ (str_eq a s || elem a xs)
elem-insert_sorted a s [] = refl
elem-insert_sorted a s (x ∷ xs) = ground (arith, elem-insert_sorted a s xs)

pub elem-sorted : (a : String) (xs : List String) → elem a (sorted xs) ≡ elem a xs
unfolding sorted
elem-sorted a [] = refl
elem-sorted a (x ∷ xs) = elem-insert_sorted a x (sorted xs) ∙ rw (elem-sorted a xs)

abbrev pub is_empty {ℓ} : {A : Type ℓ} → List A → Bool
is_empty [] = true
is_empty (_ ∷ _) = false

is_empty-insert_sorted : (s : String) (xs : List String) → is_empty (insert_sorted s xs) ≡ false
is_empty-insert_sorted s [] = refl
is_empty-insert_sorted s (x ∷ xs) = ground arith

pub is_empty-sorted : (xs : List String) → is_empty (sorted xs) ≡ is_empty xs
unfolding sorted
is_empty-sorted [] = refl
is_empty-sorted (x ∷ xs) = is_empty-insert_sorted x (sorted xs)

pub All-if {ℓ κ} :
    {A : Type ℓ} (P : A → Type κ) (b : Bool) (x : A) (xs : List A)
    → (b ≡ true → P x)
    → All P xs
    → All P (if b then x ∷ xs else xs)
All-if P true x xs g h = (g refl, h)
All-if P false x xs g h = h
