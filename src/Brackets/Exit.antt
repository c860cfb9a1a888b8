-- ===== src/Brackets/Exit.antt =====
-- What the bracket decision promises to its callers.
use crypto_bot_quant.Base.{Bool, true, false, none, some, ◌≡◌, ◌↔◌, ◌&&◌, arith, if◌then◌else◌}
use crypto_bot_quant.Base.Int.{ℤ, is_pos}
use crypto_bot_quant.Base.Float.{
  Float, IsOrdered, IsMonotone, IsNumber, ◌+◌, ◌-◌, lt, le, gt, ge, nought,
}
use crypto_bot_quant.Brackets.{
  ExitReason, fixed_stop, trailing_stop, take_profit, effective_stop, resolve_bracket_exit,
}

module _ {W : Type 0} ⦃f : Float W⦄ where
  -- The trail can only tighten the stop: for a long position the effective stop is never below the
  -- fixed stop, for a short position never above it.
  pub effective_stop_tightens :
      (side : ℤ) (stop peak trail_dist : W)
      → IsOrdered W
      → let eff = effective_stop side stop peak trail_dist in
        (is_pos side ≡ true → lt eff stop ≡ false) × (is_pos side ≡ false → lt stop eff ≡ false)
  unfolding effective_stop
  effective_stop_tightens side s peak t o = grind (
    arith,
    o.lt_irrefl s,
    o.le-not-lt s (peak - t),
    o.le-of-lt s (peak - t),
    o.le-not-lt (peak + t) s,
    o.le-of-lt (peak + t) s,
  )

  -- The bar reaches the protective stop of the position.
  abbrev pub stop_hit : ℤ → W → W → W → Bool
  stop_hit side high low eff = gt eff nought && (if is_pos side then le low eff else ge high eff)

  -- The bar reaches the take-profit of the position, if it has one.
  abbrev pub target_hit : ℤ → W → W → W → Bool
  target_hit side high low tp = gt tp nought && (if is_pos side then ge high tp else le low tp)

  -- Which stop it was: the trail has moved the effective stop past the fixed one, or not.
  abbrev pub stop_reason : ℤ → W → W → ExitReason
  stop_reason side stop eff =
      if (if is_pos side then gt eff stop else lt eff stop) then trailing_stop else fixed_stop

  -- A bar that reaches the effective stop exits there, whatever the take-profit: the stop is
  -- assumed to fill first, and the reason tells a trailed stop from the fixed one.
  pub resolve_bracket_exit_stop_first :
      (side : ℤ) (high low stop tp peak trail_dist : W)
      → let eff = effective_stop side stop peak trail_dist in
        stop_hit side high low eff ≡ true
        → resolve_bracket_exit side high low stop tp peak trail_dist
          ≡ (some (stop_reason side stop eff), eff)
  unfolding resolve_bracket_exit
  resolve_bracket_exit_stop_first side high low stop tp peak trail_dist h = ground arith

  -- A bar exits exactly if it reaches the effective stop or the take-profit; it exits at the
  -- take-profit exactly if it reaches that and not the stop.
  pub resolve_bracket_exit_iff :
      (side : ℤ) (high low stop tp peak trail_dist : W)
      → let eff = effective_stop side stop peak trail_dist in
        let r = resolve_bracket_exit side high low stop tp peak trail_dist in
        ((r ≡ (none, nought))
          ↔ ((stop_hit side high low eff ≡ false) × (target_hit side high low tp ≡ false)))
        × ((r ≡ (some take_profit, tp))
            ↔ ((stop_hit side high low eff ≡ false) × (target_hit side high low tp ≡ true)))
  unfolding resolve_bracket_exit
  resolve_bracket_exit_iff side high low stop tp peak trail_dist = ground arith

  -- As the peak rises (falls, for a short position) the effective stop never moves back, where the
  -- trailed levels are numbers.
  pub effective_stop_ratchets :
      (side : ℤ) (stop peak peak' trail_dist : W)
      → IsOrdered W
      → IsMonotone W
      → IsNumber stop
      → IsNumber (peak - trail_dist)
      → IsNumber (peak' - trail_dist)
      → IsNumber (peak + trail_dist)
      → IsNumber (peak' + trail_dist)
      → let eff = effective_stop side stop peak trail_dist in
        let eff' = effective_stop side stop peak' trail_dist in
        (is_pos side ≡ true → le peak peak' ≡ true → le eff eff' ≡ true)
        × (is_pos side ≡ false → le peak' peak ≡ true → le eff' eff ≡ true)
  unfolding effective_stop
  effective_stop_ratchets side s p p' t o m ns n1 n2 n3 n4 = (
    λ long rise. ground (
      arith,
      m.sub-mono p p' t rise n1 n2,
      o.le-of-lt s (p - t),
      o.le-of-lt s (p' - t),
      o.le-of-not-lt (p' - t) s n2 ns,
      o.le-of-not-lt (p - t) s n1 ns,
      o.lt-le-trans s (p - t) (p' - t),
    ),
    λ short fall. ground (
      arith,
      m.add-mono p' p t fall n4 n3,
      o.le-of-lt (p + t) s,
      o.le-of-lt (p' + t) s,
      o.le-of-not-lt s (p' + t) ns n4,
      o.le-of-not-lt s (p + t) ns n3,
      o.le-lt-trans (p' + t) (p + t) s,
    ),
  )
