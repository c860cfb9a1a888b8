-- ===== src/Adaptation/ActionSpace/Clamping.antt =====
-- The keys and the ranges that the clamping of weights and nudges leaves, as validate uses it.
use crypto_bot_quant.Base.{
  true, false, not, String, Option, none, some, List, [], ◌∷◌, ◌≡◌, refl, arith, elem, is_empty,
  is_empty-sorted, select, All, All-if, ◌∙◌, sym, Bool-cases, inl, inr,
}
use crypto_bot_quant.Base.Result.{Result, ok, raised}
use crypto_bot_quant.Base.Dict.{Dict, lookup, keys}
use crypto_bot_quant.Base.Float.{Float, IsOrdered, le, eq}
use crypto_bot_quant.Adaptation.ActionSpace.{
  BoundedAction, ActionBounds, keys_outside, restrict, drop_strategies, clamp, assign_clamped,
  clamp_weights, zone_lo, zone_hi, clamp_nudges,
}

module _ {W : Type 0} where
  abbrev pub HasKeysIn : List String → Dict W → Type 0
  HasKeysIn names d = All (λ e. elem e.0 names ≡ true) d

  select-is_empty :
      (names : List String) (d : Dict W)
      → is_empty (select (λ k. not (elem k names)) (keys d)) ≡ true
      → HasKeysIn names d
  select-is_empty names [] h = tt
  select-is_empty names ((k, w) ∷ d) h = (ground arith, select-is_empty names d (ground arith))

  keys_outside-is_empty :
      (names : List String) (d : Dict W)
      → is_empty (keys_outside names d) ≡ true
      → HasKeysIn names d
  keys_outside-is_empty names d h = select-is_empty names d (sym (is_empty-sorted _) ∙ h)

  restrict-HasKeysIn : (names : List String) (d : Dict W) → HasKeysIn names (restrict names d)
  unfolding restrict
  restrict-HasKeysIn names [] = tt
  restrict-HasKeysIn names ((k, w) ∷ d) =
      All-if (λ (e : String × W). elem e.0 names ≡ true) (elem k names) (k, w) (restrict names d)
        (λ h. h) (restrict-HasKeysIn names d)

  -- The keys after the check of the strategies are allowed, where a set of them is declared.
  pub drop_strategies-HasKeysIn :
      (bounds : ActionBounds W) (action : BoundedAction W) (clamped : List String)
      → is_empty bounds.allowed_strategies ≡ false
      → HasKeysIn bounds.allowed_strategies
          (drop_strategies bounds action clamped).0.strategy_weights
  unfolding drop_strategies
  drop_strategies-HasKeysIn bounds action clamped h =
      elim (Bool-cases
        (is_empty (keys_outside bounds.allowed_strategies action.strategy_weights))) [
          | inl e ↦
              rw (h, e) (keys_outside-is_empty bounds.allowed_strategies action.strategy_weights e)
          | inr e ↦ rw (h, e) (restrict-HasKeysIn bounds.allowed_strategies action.strategy_weights)
        ]

module _ {W : Type 0} ⦃f : Float W⦄ where
  abbrev IsWithin : W → W → W → Type 0
  IsWithin lo hi x = (le lo x ≡ true) × (le x hi ≡ true)

  clamp-IsWithin : (lo hi x : W) → IsOrdered W → le lo hi ≡ true → IsWithin lo hi (clamp lo hi x)
  clamp-IsWithin lo hi x o h =
      let least = o.number-left lo hi h in
      let most = o.number-right lo hi h in
      let under = o.le-of-lt x hi in
      (ground (arith, o.le-of-lt lo x, o.le-of-lt lo hi), ground arith)

  assign_clamped-IsWithin :
      (lo hi x : W) → IsOrdered W → le lo hi ≡ true → IsWithin lo hi (assign_clamped lo hi x)
  assign_clamped-IsWithin lo hi x o h =
      let c = clamp lo hi x in
      let (above, below) = clamp-IsWithin lo hi x o h in
      elim (Bool-cases (eq c x)) [
        | inl e ↦ rw e (
          o.le_trans lo c x above (o.le-of-eq c x e),
          o.le_trans x c hi (o.le-of-eq x c (o.eq_sym c x e)) below,
        )
        | inr e ↦ rw e (above, below)
      ]

  abbrev pub AreWithin : W → W → Dict W → Type 0
  AreWithin lo hi d = All (λ e. IsWithin lo hi e.1) d

  pub clamp_weights-AreWithin :
      (bounds : ActionBounds W) (d : Dict W)
      → IsOrdered W
      → le bounds.w_min bounds.w_max ≡ true
      → AreWithin bounds.w_min bounds.w_max (clamp_weights bounds d).0
  unfolding clamp_weights
  clamp_weights-AreWithin bounds [] o h = tt
  clamp_weights-AreWithin bounds ((k, w) ∷ d) o h = (
    assign_clamped-IsWithin bounds.w_min bounds.w_max w o h,
    clamp_weights-AreWithin bounds d o h,
  )

  pub clamp_weights-HasKeysIn :
      (bounds : ActionBounds W) (names : List String) (d : Dict W)
      → HasKeysIn names d
      → HasKeysIn names (clamp_weights bounds d).0
  unfolding clamp_weights
  clamp_weights-HasKeysIn bounds names [] h = tt
  clamp_weights-HasKeysIn bounds names ((k, w) ∷ d) h =
      (h.0, clamp_weights-HasKeysIn bounds names d h.1)

  -- A nudge of a registered tunable, within its zone.
  abbrev pub IsNudge : ActionBounds W → String × W → Type 0
  IsNudge bounds e =
      (zone : Dict W) × (lookup e.0 bounds.registered_tunables ≡ some zone)
      × (le (zone_lo zone) e.1 ≡ true)
      × (le e.1 (zone_hi zone) ≡ true)

  -- The declared ranges are not empty.
  abbrev pub AreRanges : ActionBounds W → Type 0
  AreRanges bounds =
      (le bounds.w_min bounds.w_max ≡ true)
      × ((k : String) (zone : Dict W)
          → lookup k bounds.registered_tunables ≡ some zone
          → le (zone_lo zone) (zone_hi zone) ≡ true)

  abbrev pub AreNudges : ActionBounds W → Result (Dict W × List String) → Type 0
  AreNudges bounds (ok r) = All (IsNudge bounds) r.0
  AreNudges bounds (raised e) = Unit

  clamp_nudges-cons :
      (bounds : ActionBounds W) (k : String) (v : W) (d : Dict W) (o : Option (Dict W))
      (others : Result (Dict W × List String))
      → IsOrdered W
      → AreRanges bounds
      → lookup k bounds.registered_tunables ≡ o
      → clamp_nudges bounds d ≡ others
      → AreNudges bounds others
      → AreNudges bounds (clamp_nudges bounds ((k, v) ∷ d))
  unfolding clamp_nudges
  clamp_nudges-cons bounds k v d none others o r e e' h = rw (e, AreNudges) tt
  clamp_nudges-cons bounds k v d (some zone) (raised x) o r e e' h = rw (e, e', AreNudges) tt
  clamp_nudges-cons bounds k v d (some zone) (ok rest) o r e e' h =
      let within = assign_clamped-IsWithin (zone_lo zone) (zone_hi zone) v o (r.1 k zone e) in
      rw (e, e', AreNudges) ((zone, e, within.0, within.1), h)

  pub clamp_nudges-AreNudges :
      (bounds : ActionBounds W) (d : Dict W)
      → IsOrdered W
      → AreRanges bounds
      → AreNudges bounds (clamp_nudges bounds d)
  unfolding clamp_nudges
  clamp_nudges-AreNudges bounds [] o r = tt
  clamp_nudges-AreNudges bounds ((k, v) ∷ d) o r =
      clamp_nudges-cons bounds k v d (lookup k bounds.registered_tunables) (clamp_nudges bounds d) o
        r refl refl (clamp_nudges-AreNudges bounds d o r)
