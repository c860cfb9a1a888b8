-- ===== src/Paper/Process/Authorised.antt =====
-- What it takes for a candidate to reach the venue or the book of the paper engine.
use crypto_bot_quant.Base.{
  Bool, true, false, String, none, ◌≡◌, ◌⊎◌, refl, sym, subst, arith, is_empty, Bool-cases, inl,
  inr, ◌∙◌,
}
use crypto_bot_quant.Base.Int.{ℤ}
use crypto_bot_quant.Base.Result.{Result, Exc, ok, raised, Result-cases}
use crypto_bot_quant.Base.Float.{Float}
use crypto_bot_quant.Ranking.Setup.{default_context, score}
use crypto_bot_quant.Ranking.Engine.Selection.{IsTradable, score-IsTradable-of_empty}
use crypto_bot_quant.Risk.Manager.Defs.{AccountState, RiskDecision}
use crypto_bot_quant.Risk.Manager.Decide as Manager
use crypto_bot_quant.Exchange.Metadata.{MetadataConfig}
use crypto_bot_quant.Ranking.Candidate.{Candidate}
use crypto_bot_quant.Execution.Config.{ExecutionPolicyConfig}
use crypto_bot_quant.Execution.Ownership.{OwnershipPolicy}
use crypto_bot_quant.Risk.Breakers.{BreakerReason}
use crypto_bot_quant.Execution.Engine.{
  ExecutionResult, Venue, Abort, Request, aborted, execute, prepare, Prepared, refused, ready,
}
use crypto_bot_quant.Execution.Engine.Safety.{prepare-IsCleared}
use crypto_bot_quant.Paper.Engine.{
  PaperTradingEngine, persist_state, calendar_windows, roll_anchors, roll_loss_windows,
}
use crypto_bot_quant.Paper.Exits.{PaperVenue, Trading}
use crypto_bot_quant.Paper.Input.{PaperCandidateInput, Pipeline, Moment, default_request, refuse}
use crypto_bot_quant.Paper.Process.{
  check_halt, loss_view, account_of, latch, conclude, answered, enter, assess, judge, process_one,
}

module _ {W S : Type 0} ⦃f : Float W⦄ where
  -- The venue, the open positions and the trades are as they were.
  abbrev pub IsUntouched : Trading W S → Trading W S → Type 0
  IsUntouched (e, s) (e', s') =
      (e'.venue ≡ e.venue) × (e'.open_positions ≡ e.open_positions) × (s'.trades ≡ s.trades)

  persist_state-keeps :
      (wrote : Bool) (e : PaperTradingEngine W S)
      → ((persist_state wrote e).venue ≡ e.venue)
        × ((persist_state wrote e).open_positions ≡ e.open_positions)
  unfolding persist_state
  persist_state-keeps wrote e = ground arith

  check_halt-keeps :
      (e : PaperTradingEngine W S)
      → ((check_halt e).1.venue ≡ e.venue) × ((check_halt e).1.open_positions ≡ e.open_positions)
  unfolding check_halt
  check_halt-keeps e = ground arith

  loss_view-keeps :
      (m : Moment) (inp : PaperCandidateInput W) (e : PaperTradingEngine W S)
      → ((loss_view m inp e).1.venue ≡ e.venue)
        × ((loss_view m inp e).1.open_positions ≡ e.open_positions)
  unfolding loss_view calendar_windows roll_loss_windows roll_anchors persist_state
  loss_view-keeps m inp e = ground arith

  -- What a refused preparation makes of an execution, and what a raised one does.
  execute-refused :
      (venue : Venue W S) (cfg : ExecutionPolicyConfig W) (meta : MetadataConfig W)
      (o o' : OwnershipPolicy) (killed : Bool) (c : Candidate W) (d : RiskDecision W)
      (q : Request W) (v : S) (r : Abort W)
      → prepare cfg meta o killed c d q.entry_style ≡ ok (refused r o')
      → execute venue cfg meta o killed c d q v ≡ (ok (aborted r, o'), v)
  unfolding execute
  execute-refused venue cfg meta o o' killed c d q v r h = rw (h, execute) refl

  execute-raised :
      (venue : Venue W S) (cfg : ExecutionPolicyConfig W) (meta : MetadataConfig W)
      (o : OwnershipPolicy) (killed : Bool) (c : Candidate W) (d : RiskDecision W) (q : Request W)
      (v : S) (x : Exc)
      → prepare cfg meta o killed c d q.entry_style ≡ raised x
      → execute venue cfg meta o killed c d q v ≡ (raised x, v)
  unfolding execute
  execute-raised venue cfg meta o killed c d q v x h = rw (h, execute) refl

  latch-keeps :
      (text_of : BreakerReason W → String) (wrote : Bool) (ts : ℤ) (d : RiskDecision W)
      (e : PaperTradingEngine W S)
      → ((latch text_of wrote ts d e).venue ≡ e.venue)
        × ((latch text_of wrote ts d e).open_positions ≡ e.open_positions)
  unfolding latch
  latch-keeps text_of wrote ts d e = ground arith

module _ {W S : Type 0} ⦃f : Float W⦄ (venue : PaperVenue W S) (p : Pipeline W) where
  -- Nothing forbids the candidate: no halt stands, no hard blocker, the risk manager approves it on
  -- the account with all open positions, and the kill switch is clear when it is executed.
  pub record IsAuthorised (m : Moment) (inp : PaperCandidateInput W) (e : PaperTradingEngine W S)
      : Type 0 where
    pub unhalted : (check_halt e).0 ≡ false
    pub seen : W × W × W × W
    pub viewed : (loss_view m inp (check_halt e).1).0 ≡ ok seen
    pub tradable : IsTradable p.rank_cfg p.meta p.no_trade inp.candidate default_context
    pub decision : RiskDecision W
    pub judged :
        Manager.evaluate p.risk_cfg p.meta m.killed_at_risk inp.candidate
          (account_of p.exec_cfg.max_slippage_frac inp seen (loss_view m inp (check_halt e).1).1)
        ≡ ok decision
    pub approved : decision.approved ≡ true
    pub alive : m.killed_at_execution ≡ false

  enter-cases :
      (m : Moment) (inp : PaperCandidateInput W) (d : RiskDecision W) (st : Trading W S)
      → IsUntouched st (enter venue p m inp d st).1
        ⊎ ((d.approved ≡ true) × (m.killed_at_execution ≡ false))
  unfolding enter answered conclude refuse
  enter-cases m inp d (e, s) =
      go (prepare p.exec_cfg p.meta e.ownership m.killed_at_execution inp.candidate d none) refl
    where
      untouched :
          (x : Result (ExecutionResult W × OwnershipPolicy) × S)
          → execute venue.orders p.exec_cfg p.meta e.ownership m.killed_at_execution inp.candidate d
              default_request e.venue
            ≡ x
          → IsUntouched (e, s) (answered venue p m inp d (e, s) x).1
          → IsUntouched (e, s) (enter venue p m inp d (e, s)).1
      untouched x h u =
          subst (λ y. IsUntouched (e, s) (answered venue p m inp d (e, s) y).1) (sym h) u

      go :
          (x : Result (Prepared W))
          → prepare p.exec_cfg p.meta e.ownership m.killed_at_execution inp.candidate d none ≡ x
          → IsUntouched (e, s) (enter venue p m inp d (e, s)).1
            ⊎ ((d.approved ≡ true) × (m.killed_at_execution ≡ false))
      go (raised x) h = inl (
          untouched (raised x, e.venue)
            (execute-raised venue.orders p.exec_cfg p.meta e.ownership m.killed_at_execution
              inp.candidate d default_request e.venue x h)
            (refl, refl, refl))
      go (ok (refused r p')) h = inl (
          untouched (ok (aborted r, p'), e.venue)
            (execute-refused venue.orders p.exec_cfg p.meta e.ownership p' m.killed_at_execution
              inp.candidate d default_request e.venue r h)
            (refl, refl, refl))
      go (ok (ready plan p')) h =
          let cleared =
            prepare-IsCleared p.exec_cfg p.meta e.ownership m.killed_at_execution inp.candidate d
              none h in
          inr (cleared.approved, cleared.executable.alive)

  judge-cases :
      (m : Moment) (inp : PaperCandidateInput W) (account : AccountState W) (st : Trading W S)
      → IsUntouched st (judge venue p m inp account st).1
        ⊎ (IsTradable p.rank_cfg p.meta p.no_trade inp.candidate default_context
            × (d : RiskDecision W) × (Manager.evaluate p.risk_cfg p.meta m.killed_at_risk
                  inp.candidate account
                ≡ ok d)
            × (d.approved ≡ true)
            × (m.killed_at_execution ≡ false))
  unfolding judge refuse
  judge-cases m inp account (e, s) =
      let c = inp.candidate in
      elim (Result-cases (score p.rank_cfg p.meta p.no_trade c default_context)) [
        | inr (x, h) ↦ inl (rw (h, judge) (refl, refl, refl))
        | inl (setup, h) ↦ elim (Bool-cases (is_empty setup.blockers)) [
          | inr b ↦ inl (rw (h, b, judge) (refl, refl, refl))
          | inl b ↦
              elim (Result-cases (Manager.evaluate p.risk_cfg p.meta m.killed_at_risk c account)) [
                | inr (x, g) ↦ inl (rw (h, b, g, judge) (refl, refl, refl))
                | inl (d, g) ↦ elim (Bool-cases d.approved) [
                  | inr a ↦
                      let kept = latch-keeps p.text_of m.wrote_halt c.decision_ts d e in
                      inl (simp (h, b, g, a, judge) (kept.0, kept.1, refl))
                  | inl a ↦ elim (enter-cases m inp d (e, s)) [
                    | inl u ↦ inl (simp (h, b, g, a, judge) u)
                    | inr (a', k) ↦ inr (
                      score-IsTradable-of_empty p.rank_cfg p.meta p.no_trade c default_context setup
                          h b,
                      d,
                      g,
                      a',
                      k,
                    )
                  ]
                ]
              ]
        ]
      ]

  -- The venue, the open positions or the trades change only by a candidate that nothing forbids.
  pub process_one_guarded :
      (m : Moment) (inp : PaperCandidateInput W) (st : Trading W S)
      → IsUntouched st (process_one venue p m inp st).1 ⊎ IsAuthorised m inp st.0
  unfolding process_one assess refuse
  process_one_guarded m inp (e, s) =
      let kept = check_halt-keeps e in
      let seen_kept = loss_view-keeps m inp (check_halt e).1 in
      elim (Bool-cases (check_halt e).0) [
        | inl h ↦ inl (rw (h, process_one) (kept.0, kept.1, refl))
        | inr h ↦ elim (Result-cases (loss_view m inp (check_halt e).1).0) [
          | inr (x, g) ↦
              inl
                (rw (h, g, process_one, assess) (seen_kept.0 ∙ kept.0, seen_kept.1 ∙ kept.1, refl))
          | inl (seen, g) ↦
              let e2 = (loss_view m inp (check_halt e).1).1 in
              elim (judge-cases m inp (account_of p.exec_cfg.max_slippage_frac inp seen e2)
                (e2, s)) [
                  | inl u ↦ inl (
                      rw (h, g, process_one, assess)
                        (u.0 ∙ seen_kept.0 ∙ kept.0, u.1 ∙ seen_kept.1 ∙ kept.1, u.2))
                  | inr (t, d, judged, a, k) ↦ inr (record {
                    unhalted = h;
                    seen = seen;
                    viewed = g;
                    tradable = t;
                    decision = d;
                    judged = judged;
                    approved = a;
                    alive = k;
                  })
                ]
        ]
      ]
