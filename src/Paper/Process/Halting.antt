-- ===== src/Paper/Process/Halting.antt =====
-- A loss halt stops every later batch, in this process and in the next.
use Prim.Native.Nat.{◌+◌}
use crypto_bot_quant.Base.{
  ℕ, Bool, true, false, String, Option, none, some, List, [], ◌∷◌, ◌≡◌, ◌≢◌, refl, sym, ap, ◌∙◌,
  subst, arith, is_empty, length, length-append, Bool-cases, Option-cases, inl, inr,
}
use crypto_bot_quant.Base.Int.{ℤ}
use crypto_bot_quant.Base.Result.{Result, ok}
use crypto_bot_quant.Base.Dict.{Dict}
use crypto_bot_quant.Base.Value.{Value}
use crypto_bot_quant.Base.Float.{Float}
use crypto_bot_quant.Ranking.Setup.{SetupScore, default_context, score}
use crypto_bot_quant.Risk.Breakers.{BreakerReason}
use crypto_bot_quant.Risk.Manager.Defs.{AccountState, RiskDecision}
use crypto_bot_quant.Risk.Manager.Decide as Manager
use crypto_bot_quant.Risk.State.{RiskStateStore, refresh, is_tripped, trip}
use crypto_bot_quant.Risk.State.Halt.{trip_binds}
use crypto_bot_quant.Paper.Session.{PaperSession}
use crypto_bot_quant.Paper.Engine.{PaperTradingEngine}
use crypto_bot_quant.Paper.Exits.{PaperVenue, Trading}
use crypto_bot_quant.Paper.Input.{
  PaperCandidateInput, Pipeline, Moment, manual_reset, is_block, nonzero, refuse,
}
use crypto_bot_quant.Paper.Process.{
  check_halt, loss_view, account_of, latch, assess, judge, process_one, process_all, snapshot,
  process_candidates,
}

module _ {W : Type 0} ⦃f : Float W⦄ where
  is_tripped-refresh : (store : RiskStateStore W) → is_tripped (refresh store) ≡ is_tripped store
  unfolding is_tripped refresh
  is_tripped-refresh store = refl

  -- A trip that is written leaves a halt on file, whether one stood there or not.
  trip-is_tripped :
      (reason : String) (ts : Option ℤ) (store : RiskStateStore W) (copy : Dict (Value W))
      → reason ≢ ""
      → is_tripped (record (trip true reason ts store) { state = copy }) ≡ true
  unfolding is_tripped trip
  trip-is_tripped reason ts store copy ne = elim (Bool-cases (is_tripped store)) [
    | inl t ↦ rw (t, trip) t
    | inr clear ↦ (trip_binds reason ts store copy ne clear).1
  ]

module _ {W S : Type 0} ⦃f : Float W⦄ where
  -- The store on whose file a halt stands.
  abbrev pub IsHalted : PaperTradingEngine W S → Type 0
  IsHalted e = (store : RiskStateStore W) × (e.state_store ≡ some store) × (is_tripped store ≡ true)

  -- A batch that is refused whole: nothing reaches the venue or the book.
  abbrev pub IsRefused : ℕ → Trading W S → Result (Unit {0}) × Trading W S → Type 0
  IsRefused n (e, s) (r, (e', s')) =
      (r ≡ ok tt)
      × (e'.venue ≡ e.venue)
      × (e'.open_positions ≡ e.open_positions)
      × (s'.trades ≡ s.trades)
      × (length s'.rejected ≡ length s.rejected + n)

  check_halt-Halted :
      (e : PaperTradingEngine W S)
      → IsHalted e
      → ((check_halt e).0 ≡ true)
        × IsHalted (check_halt e).1
        × ((check_halt e).1.venue ≡ e.venue)
        × ((check_halt e).1.open_positions ≡ e.open_positions)
  unfolding check_halt
  check_halt-Halted e (store, h, t) =
      rw (h, check_halt) (t, (refresh store, refl, is_tripped-refresh store ∙ t), refl, refl)

  snapshot-Halted :
      (margin equity : Option W) (e : PaperTradingEngine W S) (s : PaperSession W)
      → IsHalted e
      → let (e', s') = snapshot margin equity (e, s) in
        IsHalted e'
        × (e'.venue ≡ e.venue)
        × (e'.open_positions ≡ e.open_positions)
        × (s'.trades ≡ s.trades)
        × (length s'.rejected ≡ length s.rejected)
  unfolding snapshot
  snapshot-Halted margin equity e s h = go equity refl
    where
      go :
          (q : Option W)
          → q ≡ equity
          → let (e', s') = snapshot margin q (e, s) in
            IsHalted e'
            × (e'.venue ≡ e.venue)
            × (e'.open_positions ≡ e.open_positions)
            × (s'.trades ≡ s.trades)
            × (length s'.rejected ≡ length s.rejected)
      go none q = (h, refl, refl, refl, refl)
      go (some x) q = elim (Option-cases e.session_start_equity) [
        | inl g ↦ rw (g, snapshot) (h, refl, refl, refl, refl)
        | inr (y, g) ↦ rw (g, snapshot) (h, refl, refl, refl, refl)
      ]

module _ {W S : Type 0} ⦃f : Float W⦄ (venue : PaperVenue W S) (p : Pipeline W) where
  process_one-Halted :
      (m : Moment) (inp : PaperCandidateInput W) (e : PaperTradingEngine W S) (s : PaperSession W)
      → IsHalted e
      → IsRefused 1 (e, s) (process_one venue p m inp (e, s))
        × IsHalted (process_one venue p m inp (e, s)).1.0
  unfolding process_one refuse
  process_one-Halted m inp e s h =
      let (t, kept, v, o) = check_halt-Halted e h in
      rw (t, process_one) ((refl, v, o, refl, length-append s.rejected _), kept)

  -- The refusals of two parts of a batch add up.
  process_all-Halted :
      (inputs : List (Moment × PaperCandidateInput W)) (e : PaperTradingEngine W S)
      (s : PaperSession W)
      → IsHalted e
      → IsRefused (length inputs) (e, s) (process_all venue p inputs (e, s))
  unfolding process_all
  process_all-Halted [] e s h = (refl, refl, refl, refl, omega arith)
  process_all-Halted ((m, inp) ∷ rest) e s h =
      let ((r, v, o, t, n), kept) = process_one-Halted m inp e s h in
      let st = (process_one venue p m inp (e, s)).1 in
      let (r', v', o', t', n') = process_all-Halted rest st.0 st.1 kept in
      simp (r, process_all) (r', v' ∙ v, o' ∙ o, t' ∙ t, omega (arith, n, n'))

  -- While a halt is on file, a batch of candidates returns and is refused whole, each candidate with
  -- a rejection: nothing reaches the venue, and no trade or position is opened.
  pub halted_refuses_batch :
      (margin equity : Option W) (inputs : List (Moment × PaperCandidateInput W))
      (e : PaperTradingEngine W S) (s : PaperSession W)
      → IsHalted e
      → IsRefused (length inputs) (e, s) (process_candidates venue p margin equity inputs (e, s))
  unfolding process_candidates
  halted_refuses_batch margin equity inputs e s h =
      let (kept, v, o, t, n) = snapshot-Halted margin equity e s h in
      let st = snapshot margin equity (e, s) in
      let (r', v', o', t', n') = process_all-Halted inputs st.0 st.1 kept in
      (r', v' ∙ v, o' ∙ o, t' ∙ t, omega (arith, n, n'))

  -- The risk manager blocks the candidate by a breaker that needs a manual reset.
  pub record IsLossBlocked (m : Moment) (inp : PaperCandidateInput W) (account : AccountState W)
      : Type 0 where
    pub setup : SetupScore W
    pub scored : score p.rank_cfg p.meta p.no_trade inp.candidate default_context ≡ ok setup
    pub unblocked : is_empty setup.blockers ≡ true
    pub decision : RiskDecision W
    pub judged :
        Manager.evaluate p.risk_cfg p.meta m.killed_at_risk inp.candidate account ≡ ok decision
    pub refused : decision.approved ≡ false
    pub blocking : is_block decision.action ≡ true
    pub reason : BreakerReason W
    pub loss : manual_reset decision.blocker ≡ some reason
    pub worded : p.text_of reason ≢ ""

  latch-trips :
      (wrote : Bool) (ts : ℤ) (d : RiskDecision W) (e : PaperTradingEngine W S)
      (store : RiskStateStore W) (reason : BreakerReason W)
      → e.state_store ≡ some store
      → manual_reset d.blocker ≡ some reason
      → is_block d.action ≡ true
      → (latch p.text_of wrote ts d e).state_store
        ≡ some (trip wrote (p.text_of reason) (nonzero ts) store)
  unfolding latch
  latch-trips wrote ts d e store r h g b = rw (h, g, b, latch) refl

  judge-latches :
      (m : Moment) (inp : PaperCandidateInput W) (account : AccountState W)
      (e : PaperTradingEngine W S) (s : PaperSession W) (store : RiskStateStore W)
      (l : IsLossBlocked m inp account)
      → e.state_store ≡ some store
      → (judge venue p m inp account (e, s)).1.0.state_store
        ≡ some (trip m.wrote_halt (p.text_of l.reason) (nonzero inp.candidate.decision_ts) store)
  unfolding judge
  judge-latches m inp account e s store l h =
      simp (l.scored, l.unblocked, l.judged, l.refused, judge)
        (latch-trips m.wrote_halt inp.candidate.decision_ts l.decision e store l.reason h l.loss
          l.blocking)

  -- A candidate that the risk manager blocks for a loss of the day, of the week or from the peak
  -- puts the halt on file, if its write succeeds: from then on every batch is refused whole, by any
  -- engine whose store stands on that file, such as one that is started anew.
  pub loss_block_binds :
      (m : Moment) (inp : PaperCandidateInput W) (e e2 later : PaperTradingEngine W S)
      (s s' : PaperSession W) (seen : W × W × W × W) (store saved : RiskStateStore W)
      (copy : Dict (Value W)) (margin equity : Option W)
      (inputs : List (Moment × PaperCandidateInput W))
      → (check_halt e).0 ≡ false
      → loss_view m inp (check_halt e).1 ≡ (ok seen, e2)
      → e2.state_store ≡ some store
      → m.wrote_halt ≡ true
      → IsLossBlocked m inp (account_of p.exec_cfg.max_slippage_frac inp seen e2)
      → (process_one venue p m inp (e, s)).1.0.state_store ≡ some saved
      → later.state_store ≡ some (record saved { state = copy })
      → IsRefused
          (length inputs)
          (later, s')
          (process_candidates venue p margin equity inputs (later, s'))
  unfolding process_one assess
  loss_block_binds m inp e e2 later s s' seen store saved copy margin equity inputs clear viewed h w
        l left stands =
      let account = account_of p.exec_cfg.max_slippage_frac inp seen e2 in
      let ts = nonzero inp.candidate.decision_ts in
      let step : process_one venue p m inp (e, s) ≡ judge venue p m inp account (e2, s) =
        rw (clear, process_one) (ap (assess venue p m inp s) viewed) in
      let written : saved ≡ trip true (p.text_of l.reason) ts store = some_inj (
        sym left
        ∙ ap (λ x. x.1.0.state_store) step
        ∙ judge-latches m inp account e2 s store l h
        ∙ ap (λ b. some (trip b (p.text_of l.reason) ts store)) w) in
      halted_refuses_batch margin equity inputs later s' (
        record saved { state = copy },
        stands,
        subst (λ x. is_tripped (record x { state = copy }) ≡ true) (sym written)
            (trip-is_tripped (p.text_of l.reason) ts store copy l.worded),
      )
    where
      some_inj : {x y : RiskStateStore W} → some x ≡ some y → x ≡ y
      some_inj e = cc
