-- ===== src/Ranking/Engine/Sorting.antt =====
-- What the stable sort of the ranking keeps and gives, for any order.
use Prim.Native.Nat.{◌+◌, Ordering}
use Prim.Native.Nat as Number
use Prim.Native.Char.{code}
use Prim.Native.String as Text
use Prim.Native.String.compare
use mathlib.Core.List.{Perm}
use mathlib.Core.List.Perm
use crypto_bot_quant.Base.{
  ℕ, suc, Bool, true, false, String, List, [], ◌∷◌, ◌≡◌, refl, sym, ap, ◌∙◌, subst, arith,
  if◌then◌else◌, All, Bool-cases, inl, inr, length, eq_iff,
}
use crypto_bot_quant.Base.Float.{Float, IsOrdered, lt, eq}
use crypto_bot_quant.Ranking.Engine.{insert_by, sort_by, text_lt, Scored, RankKey, key_lt}

-- No item is strictly before the one that precedes it.
abbrev pub IsRanked : {A : Type 0} → (A → A → Bool) → List A → Type 0
IsRanked less [] = Unit
IsRanked less (x ∷ []) = Unit
IsRanked less (x ∷ y ∷ ys) = (less y x ≡ false) × IsRanked less (y ∷ ys)

module _ {A : Type 0} (less : A → A → Bool) where
  insert_by-perm : (x : A) (xs : List A) → Perm (insert_by less x xs) (x ∷ xs)
  unfolding insert_by
  insert_by-perm x [] = Perm.refl (x ∷ [])
  insert_by-perm x (y ∷ ys) = elim (Bool-cases (less y x)) [
    | inr e ↦ rw e (Perm.refl (x ∷ y ∷ ys))
    | inl e ↦ rw e (Perm.trans (Perm.cons y (insert_by-perm x ys)) (Perm.swap x y ys))
  ]

  pub sort_by-perm : (xs : List A) → Perm (sort_by less xs) xs
  unfolding sort_by
  sort_by-perm [] = Perm.refl []
  sort_by-perm (x ∷ xs) =
      Perm.trans (insert_by-perm x (sort_by less xs)) (Perm.cons x (sort_by-perm xs))

  insert_by-All :
      (P : A → Type 0) (x : A) (xs : List A) → P x → All P xs → All P (insert_by less x xs)
  unfolding insert_by
  insert_by-All P x [] p h = (p, tt)
  insert_by-All P x (y ∷ ys) p h = elim (Bool-cases (less y x)) [
    | inr e ↦ rw e (p, (h.0, h.1))
    | inl e ↦ rw e (h.0, insert_by-All P x ys p h.1)
  ]

  pub sort_by-All : (P : A → Type 0) (xs : List A) → All P xs → All P (sort_by less xs)
  unfolding sort_by
  sort_by-All P [] h = tt
  sort_by-All P (x ∷ xs) h = insert_by-All P x (sort_by less xs) h.0 (sort_by-All P xs h.1)

  insert_by-length : (x : A) (xs : List A) → length (insert_by less x xs) ≡ suc (length xs)
  unfolding insert_by
  insert_by-length x [] = refl
  insert_by-length x (y ∷ ys) = elim (Bool-cases (less y x)) [
    | inr e ↦ rw e refl
    | inl e ↦ rw e (ap suc (insert_by-length x ys))
  ]

  pub sort_by-length : (xs : List A) → length (sort_by less xs) ≡ length xs
  unfolding sort_by
  sort_by-length [] = refl
  sort_by-length (x ∷ xs) = insert_by-length x (sort_by less xs) ∙ ap suc (sort_by-length xs)

  -- After an item y that is not before x or any of the rest.
  insert_by-IsRanked_after :
      (y x : A) (xs : List A)
      → less x y ≡ false
      → IsRanked less (y ∷ xs)
      → IsRanked less (insert_by less x xs)
      → IsRanked less (y ∷ insert_by less x xs)
  unfolding insert_by
  insert_by-IsRanked_after y x [] h r s = (h, tt)
  insert_by-IsRanked_after y x (z ∷ zs) h r s = elim (Bool-cases (less z x)) [
    | inr e ↦
        rw e
          ((h, subst (λ b. IsRanked less (if b then z ∷ insert_by less x zs else x ∷ z ∷ zs)) e s))
    | inl e ↦
        rw e (
          (r.0, subst (λ b. IsRanked less (if b then z ∷ insert_by less x zs else x ∷ z ∷ zs)) e s))
  ]

  tail-IsRanked : (y : A) (ys : List A) → IsRanked less (y ∷ ys) → IsRanked less ys
  tail-IsRanked y [] h = tt
  tail-IsRanked y (z ∷ zs) h = h.1

  insert_by-IsRanked :
      (x : A) (xs : List A)
      → ((a b : A) → less a b ≡ true → less b a ≡ false)
      → IsRanked less xs
      → IsRanked less (insert_by less x xs)
  unfolding insert_by
  insert_by-IsRanked x [] asym h = tt
  insert_by-IsRanked x (y ∷ ys) asym h = elim (Bool-cases (less y x)) [
    | inr e ↦ rw e (e, h)
    | inl e ↦ rw e (
        insert_by-IsRanked_after y x ys (asym y x e) h
          (insert_by-IsRanked x ys asym (tail-IsRanked y ys h)))
  ]

  pub sort_by-IsRanked :
      (xs : List A)
      → ((a b : A) → less a b ≡ true → less b a ≡ false)
      → IsRanked less (sort_by less xs)
  unfolding sort_by
  sort_by-IsRanked [] asym = tt
  sort_by-IsRanked (x ∷ xs) asym =
      insert_by-IsRanked x (sort_by less xs) asym (sort_by-IsRanked xs asym)

abbrev swap : Ordering → Ordering
swap Ordering.lt = Ordering.gt
swap Ordering.eq = Ordering.eq
swap Ordering.gt = Ordering.lt

number-swap : (m n : ℕ) → Number.compare n m ≡ swap (Number.compare m n)
number-swap m n = ground arith

then-swap : (o r : Ordering) → Text.then (swap o) (swap r) ≡ swap (Text.then o r)
then-swap Ordering.lt r = refl
then-swap Ordering.eq r = refl
then-swap Ordering.gt r = refl

compare-swap : (s t : String) → Text.compare t s ≡ swap (Text.compare s t)
compare-swap Text.[] Text.[] = refl
compare-swap Text.[] (Text.◌∷◌ d t) = compare.cons-nil d t ∙ ap swap (sym (compare.nil-cons d t))
compare-swap (Text.◌∷◌ c s) Text.[] = compare.nil-cons c s ∙ ap swap (sym (compare.cons-nil c s))
compare-swap (Text.◌∷◌ c s) (Text.◌∷◌ d t) =
    compare.cons-cons d c t s
    ∙ rw (number-swap (code c) (code d), compare-swap s t)
        (then-swap (Number.compare (code c) (code d)) (Text.compare s t))
    ∙ ap swap (sym (compare.cons-cons c d s t))

text_lt_asym : (s t : String) → text_lt s t ≡ true → text_lt t s ≡ false
text_lt_asym s t h = ground (arith, compare-swap s t)

module _ {W : Type 0} ⦃f : Float W⦄ where
  lt_asym : (a b : W) → IsOrdered W → lt a b ≡ true → lt b a ≡ false
  lt_asym a b o h = elim (Bool-cases (lt b a)) [
    | inr e ↦ e
    | inl e ↦ cc (o.lt_irrefl a, o.lt_trans a b a h e)
  ]

  eq-swap : (a b : W) → IsOrdered W → eq a b ≡ false → eq b a ≡ false
  eq-swap a b o h = elim (Bool-cases (eq b a)) [ inr e ↦ e | inl e ↦ cc (o.eq_sym b a e) ]

  -- The order of the ranking's keys is asymmetric, NaN included.
  pub key_lt_asym :
      (ks : List (RankKey W)) (x y : Scored W)
      → IsOrdered W
      → key_lt ks x y ≡ true
      → key_lt ks y x ≡ false
  unfolding key_lt
  key_lt_asym [] (c, s) (d, t) o h = ground (
    arith,
    eq_iff c.symbol d.symbol,
    eq_iff d.symbol c.symbol,
    text_lt_asym c.strategy d.strategy,
    text_lt_asym c.symbol d.symbol,
  )
  key_lt_asym (k ∷ ks) x y o h = elim (Bool-cases (eq (k x) (k y))) [
    | inl e ↦ rw (o.eq_sym (k x) (k y) e) (
        key_lt_asym ks x y o
          (subst (λ b. (if b then key_lt ks x y else lt (k x) (k y)) ≡ true) e h))
    | inr e ↦ rw (eq-swap (k x) (k y) o e) (
        lt_asym (k x) (k y) o
          (subst (λ b. (if b then key_lt ks x y else lt (k x) (k y)) ≡ true) e h))
  ]
