-- ===== src/Exchange/Tradable/Sized.antt =====
-- What a symbol that nothing blocks guarantees to sizing.
use crypto_bot_quant.Base.{
  Bool, true, false, not, String, none, some, List, [], ◌∷◌, ◌++◌, ◌≡◌, refl, arith, is_empty,
  Bool-cases, eq_iff, All, select, Option-cases, inl, inr, if◌then◌else◌,
}
use crypto_bot_quant.Base.Int.{pos, eq_of_parts}
use crypto_bot_quant.Base.Result.{Result, ok, raised}
use crypto_bot_quant.Base.Result
use crypto_bot_quant.Base.Dict.{Dict, lookup}
use crypto_bot_quant.Base.Value.{Value, null, boolean, int, float, text, items, float_or_zero}
use crypto_bot_quant.Base.Float.{Float, IsOrdered, gt, nought}
use crypto_bot_quant.Exchange.Metadata.{VerifiedSpec, MetadataConfig, find_spec, number_field}
use crypto_bot_quant.Exchange.Tradable.{
  Contradiction, incomplete, contradictory, field_of, required_fields, is_blank, is_positive,
  size_contradiction, missing_fields, checks, is_bad_interval, contradictions, spec_blocker,
  tradable_blocker,
}

select-empty {ℓ} :
    {A : Type ℓ} (p : A → Bool) (xs : List A)
    → is_empty (select p xs) ≡ true
    → All (λ x. p x ≡ false) xs
select-empty p [] h = tt
select-empty p (x ∷ xs) h = (ground arith, select-empty p xs (ground arith))

append-empty {ℓ} :
    {A : Type ℓ} (xs ys : List A) → is_empty (xs ++ ys) ≡ true → (xs ≡ []) × (is_empty ys ≡ true)
append-empty [] ys h = (refl, h)
append-empty (x ∷ xs) ys h = absurd (ground arith)

-- Inversion of the last two tests of a spec.
unblocked :
    (missing : List String) (bad_hours : Result Bool) (found : Bool → List Contradiction)
    → (if not (is_empty missing)
        then ok (some (incomplete missing))
        else Result.◌>>=◌
            (Result.map found bad_hours)
            λ c. ok (if is_empty c then none else some (contradictory c)))
      ≡ ok none
    → (bad : Bool) × (is_empty missing ≡ true) × (is_empty (found bad) ≡ true)
unblocked (m ∷ ms) bad_hours found h = absurd (ground arith)
unblocked [] (raised e) found h = absurd (ground arith)
unblocked [] (ok bad) found h = (bad, refl, ground (arith, Bool-cases (is_empty (found bad))))

module _ {W : Type 0} ⦃f : Float W⦄ where
  -- The field is a number above zero, as the risk manager and the builder read it.
  abbrev pub is_sized : Dict (Value W) → String → Bool
  is_sized fields key = elim (number_field fields key) [ raised e ↦ false | ok x ↦ gt x nought ]

  positive-float :
      (v : Value W)
      → IsOrdered W
      → gt (f.of_int (pos 0)) nought ≡ false
      → is_positive v ≡ true
      → elim (float_or_zero v) as (λ _. Bool) [ raised e ↦ false | ok x ↦ gt x nought ] ≡ true
  unfolding is_positive
  positive-float null o z h = ground arith
  positive-float (boolean true) o z h = ground arith
  positive-float (boolean false) o z h = ground arith
  positive-float (int n) o z h = ground (arith, eq_of_parts n (pos 0))
  positive-float (float x) o z h = ground (arith, o.le-of-eq x nought, o.le-not-lt x nought)
  positive-float (text s) o z h = ground arith
  positive-float (items l) o z h = ground arith

  uncontradicted :
      (fields : Dict (Value W)) (key : String) (v : Value W)
      → field_of fields key ≡ v
      → is_blank v ≡ false
      → size_contradiction fields key ≡ []
      → is_positive v ≡ true
  unfolding size_contradiction is_blank
  uncontradicted fields key null e b h = ground arith
  uncontradicted fields key (boolean x) e b h = ground (arith, Bool-cases (is_positive (boolean x)))
  uncontradicted fields key (int n) e b h = ground (arith, Bool-cases (is_positive (int n)))
  uncontradicted fields key (float x) e b h = ground (arith, Bool-cases (is_positive (float x)))
  uncontradicted fields key (text t) e b h = ground (arith, Bool-cases (is_positive (text t)))
  uncontradicted fields key (items l) e b h = ground (arith, Bool-cases (is_positive (items l)))

  field-is_sized :
      (fields : Dict (Value W)) (key : String)
      → IsOrdered W
      → gt (f.of_int (pos 0)) nought ≡ false
      → is_blank (field_of fields key) ≡ false
      → size_contradiction fields key ≡ []
      → is_sized fields key ≡ true
  unfolding number_field is_blank
  field-is_sized fields key o z b h = elim (Option-cases (lookup key fields)) [
    | inl e ↦ ground (arith, e)
    | inr (v, e) ↦ ground (arith, e, positive-float v o z, uncontradicted fields key v)
  ]

  -- What a review that finds nothing says of the sizes.
  no-checks :
      (fields : Dict (Value W)) (bad_hours : Bool)
      → is_empty (checks fields bad_hours) ≡ true
      → (size_contradiction fields "tick_size" ≡ [])
        × (size_contradiction fields "qty_step" ≡ [])
        × (size_contradiction fields "min_order_size" ≡ [])
        × (size_contradiction fields "min_notional" ≡ [])
  unfolding checks
  no-checks fields bad_hours h =
      let (tick, h1) = append-empty (size_contradiction fields "tick_size") _ h in
      let (_, h2) = append-empty (size_contradiction fields "lot_size") _ h1 in
      let (step, h3) = append-empty (size_contradiction fields "qty_step") _ h2 in
      let (size, h4) = append-empty (size_contradiction fields "min_order_size") _ h3 in
      let (worth, _) = append-empty (size_contradiction fields "min_notional") _ h4 in
      (tick, step, size, worth)

  none-missing :
      (spec : VerifiedSpec W)
      → is_empty (missing_fields spec) ≡ true
      → (is_blank (field_of spec.fields "tick_size") ≡ false)
        × (is_blank (field_of spec.fields "qty_step") ≡ false)
        × (is_blank (field_of spec.fields "min_order_size") ≡ false)
        × (is_blank (field_of spec.fields "min_notional") ≡ false)
  unfolding missing_fields
  none-missing spec h =
      let r = select-empty (λ key. is_blank (field_of spec.fields key)) required_fields h in
      (r.1.1.1.0, r.1.1.1.1.1.0, r.1.1.1.1.1.1.1.0, r.1.1.1.1.1.1.1.1.0)

  -- Every size that the risk manager and the builder read of the spec is a number above zero.
  abbrev pub IsSized : VerifiedSpec W → Type 0
  IsSized spec =
      (is_sized spec.fields "tick_size" ≡ true)
      × (is_sized spec.fields "qty_step" ≡ true)
      × (is_sized spec.fields "min_order_size" ≡ true)
      × (is_sized spec.fields "min_notional" ≡ true)

  spec_blocker-IsSized :
      (spec : VerifiedSpec W)
      → IsOrdered W
      → gt (f.of_int (pos 0)) nought ≡ false
      → spec_blocker spec ≡ ok none
      → IsSized spec
  unfolding spec_blocker contradictions
  spec_blocker-IsSized spec o z h =
      let (bad, complete, consistent) =
        unblocked (missing_fields spec)
          (is_bad_interval (field_of spec.fields "funding_interval_hours")) (checks spec.fields)
          h in
      let (tick, step, size, worth) = none-missing spec complete in
      let (tick', step', size', worth') = no-checks spec.fields bad consistent in
      (
        field-is_sized spec.fields "tick_size" o z tick tick',
        field-is_sized spec.fields "qty_step" o z step step',
        field-is_sized spec.fields "min_order_size" o z size size',
        field-is_sized spec.fields "min_notional" o z worth worth',
      )

  -- A symbol that nothing blocks has a spec of the traded venue, verified by the operator, whose
  -- tick, quantity step and minima the risk manager and the builder read as numbers above zero. The
  -- float of the integer 0 is not above the float 0.
  pub tradable_blocker-IsSized :
      (m : MetadataConfig W) (symbol exchange_id : String)
      → IsOrdered W
      → gt (f.of_int (pos 0)) nought ≡ false
      → tradable_blocker m symbol (some exchange_id) ≡ ok none
      → (spec : VerifiedSpec W) × (find_spec m symbol ≡ some spec)
        × (m.exchange_id ≡ exchange_id)
        × (m.verified ≡ true)
        × IsSized spec
  unfolding tradable_blocker
  tradable_blocker-IsSized m symbol exchange_id o z h = elim (Option-cases (find_spec m symbol)) [
    | inl e ↦ absurd (ground (arith, e))
    | inr (spec, e) ↦ (
      spec,
      e,
      ground (arith, e, eq_iff m.exchange_id exchange_id),
      ground (arith, e),
      spec_blocker-IsSized spec o z (ground (arith, e)),
    )
  ]
