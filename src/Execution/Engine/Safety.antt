-- ===== src/Execution/Engine/Safety.antt =====
-- The engine places nothing that was not approved, and reports a placement only with protection.
use crypto_bot_quant.Base.{
  Bool, true, false, String, Option, none, some, ◌≡◌, ◌⊎◌, arith, refl, is_some, Option-cases, inl,
  inr,
}
use crypto_bot_quant.Base.Result.{Result, ok, raised}
use crypto_bot_quant.Base.Float.{Float, gt, le, nought}
use crypto_bot_quant.Exchange.Metadata.{MetadataConfig, VerifiedSpec, find_spec}
use crypto_bot_quant.Ranking.Candidate.{Candidate}
use crypto_bot_quant.Risk.Manager.Defs.{RiskDecision}
use crypto_bot_quant.Execution.Config.{ExecutionPolicyConfig}
use crypto_bot_quant.Execution.Ownership.{OwnershipPolicy}
use crypto_bot_quant.Execution.Order.Build.{built, build}
use crypto_bot_quant.Execution.Order.{OrderPlan}
use crypto_bot_quant.Execution.Venue.{BracketResult, has_stop}
use crypto_bot_quant.Execution.Engine.{
  Venue, Prepared, refused, ready, outcome, terms, prepare, ExecutionResult, Request, revalidate,
  place_plan, execute,
}

module _ {W : Type 0} ⦃f : Float W⦄ where
  -- The signal is still executable.
  pub record IsExecutable (cfg : ExecutionPolicyConfig W) (killed : Bool) (c : Candidate W)
      : Type 0 where
    pub alive : killed ≡ false
    pub fresh : c.data_fresh ≡ true
    pub spread : gt c.spread_bps cfg.max_spread_bps ≡ false
    pub slippage : gt c.slippage_est cfg.max_slippage_frac ≡ false
    pub latency : gt c.latency_ms cfg.max_latency_ms ≡ false

  -- What a result that says `placed` promises.
  pub record IsProtected (r : ExecutionResult W) : Type 0 where
    pub planned : is_some r.plan ≡ true
    pub filled : elim r.fill as (λ _. Bool) [ none ↦ true | some x ↦ le x.qty nought ] ≡ false
    pub stopped : elim r.position as (λ _. Bool) [ none ↦ false | some x ↦ has_stop x ] ≡ true

  revalidate-IsExecutable :
      (cfg : ExecutionPolicyConfig W) (killed : Bool) (c : Candidate W)
      → revalidate cfg killed c ≡ none
      → IsExecutable cfg killed c
  unfolding revalidate
  revalidate-IsExecutable cfg killed c h = ground arith

  -- Everything that comes before the venue is called went through.
  pub record IsCleared (cfg : ExecutionPolicyConfig W) (meta : MetadataConfig W)
      (p : OwnershipPolicy) (killed : Bool) (c : Candidate W) (d : RiskDecision W)
      (style : Option String) (plan : OrderPlan W) (p' : OwnershipPolicy) : Type 0 where
    pub approved : d.approved ≡ true
    pub executable : IsExecutable cfg killed c
    pub spec : VerifiedSpec W
    pub known : find_spec meta c.symbol ≡ some spec
    pub bracket : build cfg p c d spec style ≡ ok (built plan, p')

  pub prepare-IsCleared :
      (cfg : ExecutionPolicyConfig W) (meta : MetadataConfig W) (p : OwnershipPolicy)
      (killed : Bool) (c : Candidate W) (d : RiskDecision W) (style : Option String)
      {plan : OrderPlan W} {p' : OwnershipPolicy}
      → prepare cfg meta p killed c d style ≡ ok (ready plan p')
      → IsCleared cfg meta p killed c d style plan p'
  unfolding prepare
  prepare-IsCleared cfg meta p killed c d style h = elim (Option-cases (find_spec meta c.symbol)) [
    | inl e ↦ absurd (ground arith)
    | inr (spec, e) ↦ record {
      approved = ground arith;
      executable = revalidate-IsExecutable cfg killed c (ground arith);
      spec = spec;
      known = e;
      bracket = ground arith;
    }
  ]

  outcome-IsProtected :
      (plan : OrderPlan W) (b : Result (BracketResult W)) {r : ExecutionResult W}
      → outcome plan b ≡ ok r
      → r.placed ≡ true
      → IsProtected r
  unfolding outcome
  outcome-IsProtected plan b h placed = ground arith

module _ {W S : Type 0} ⦃f : Float W⦄ (venue : Venue W S) where
  -- The venue is called only for an approved decision on a signal that is still executable, with
  -- metadata for its symbol and a bracket that the builder made: the state is that which the venue
  -- leaves on placing this bracket, or it is untouched.
  pub execute_guarded :
      (cfg : ExecutionPolicyConfig W) (meta : MetadataConfig W) (p : OwnershipPolicy)
      (killed : Bool) (c : Candidate W) (d : RiskDecision W) (q : Request W) (s : S)
      → let s' = (execute venue cfg meta p killed c d q s).1 in
        (s' ≡ s)
        ⊎ ((plan : OrderPlan W) × (p' : OwnershipPolicy) × IsCleared cfg meta p killed c d
              q.entry_style plan p'
            × (s' ≡ (venue.place plan (terms cfg c q) s).1))
  unfolding execute place_plan
  execute_guarded cfg meta p killed c d q s = go (prepare cfg meta p killed c d q.entry_style) refl
    where
      go :
          (x : Result (Prepared W))
          → prepare cfg meta p killed c d q.entry_style ≡ x
          → let s' = (execute venue cfg meta p killed c d q s).1 in
            (s' ≡ s)
            ⊎ ((plan : OrderPlan W) × (p' : OwnershipPolicy) × IsCleared cfg meta p killed c d
                  q.entry_style plan p'
                × (s' ≡ (venue.place plan (terms cfg c q) s).1))
      go (raised x) e = inl (rw (e, execute))
      go (ok (refused r p')) e = inl (rw (e, execute))
      go (ok (ready plan p')) e =
          inr (plan, p', prepare-IsCleared cfg meta p killed c d q.entry_style e, rw (e, execute))

  -- A result that says `placed` comes with a plan, a fill that is not zero or below and a position
  -- that has an exchange-side stop.
  pub execute_placed :
      (cfg : ExecutionPolicyConfig W) (meta : MetadataConfig W) (p : OwnershipPolicy)
      (killed : Bool) (c : Candidate W) (d : RiskDecision W) (q : Request W) (s : S)
      {r : ExecutionResult W} {p' : OwnershipPolicy}
      → (execute venue cfg meta p killed c d q s).0 ≡ ok (r, p')
      → r.placed ≡ true
      → IsProtected r
  unfolding execute place_plan
  execute_placed cfg meta p killed c d q s {r} h placed =
      go (prepare cfg meta p killed c d q.entry_style) refl
    where
      go :
          (x : Result (Prepared W))
          → prepare cfg meta p killed c d q.entry_style ≡ x
          → IsProtected r
      go (raised x) e = ground (arith)
      go (ok (refused x p1)) e = absurd (ground (arith))
      go (ok (ready plan p1)) e =
          outcome-IsProtected plan (venue.place plan (terms cfg c q) s).0 (ground arith) placed
