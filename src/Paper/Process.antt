-- ===== src/Paper/Process.antt =====
-- src/paper/engine.py: one candidate through the whole pipeline: halt, breakers, setup quality, risk
-- manager, execution, book-keeping, and the loop over a batch. An exception keeps the state that it
-- finds, but for the numbers of order ids that the execution used up.
pub mod Authorised
pub mod Halting
pub mod Accounting
use crypto_bot_quant.Base.{
  Bool, true, false, not, String, Option, none, some, List, [], ◌∷◌, ◌++◌, ◌&&◌, ◌||◌,
  if◌then◌else◌, is_empty, str_eq, ℕ, ltb,
}
use crypto_bot_quant.Base.Int.{ℤ, pos, ◌+ℤ◌, leb_ℤ, ltb_ℤ, neg_part}
use crypto_bot_quant.Base.Result.{Result, ok, raised, assertion_error}
use crypto_bot_quant.Base.Dict.{Dict, lookup, insert}
use crypto_bot_quant.Base.Value.{truthy, number?}
use crypto_bot_quant.Base.Float.{Float, ◌+◌, ◌-◌, ◌*◌, lt, le, gt, ge, eq, max, nought, one}
use crypto_bot_quant.Exchange.Metadata.{MetadataConfig, find_spec}
use crypto_bot_quant.Ranking.Candidate.{Candidate}
use crypto_bot_quant.Ranking.Setup.{RankingConfig, SetupScore, default_context, score}
use crypto_bot_quant.Risk.Config.{RiskConfig, beta_to_btc}
use crypto_bot_quant.Risk.Breakers.{
  BreakerReason, BreakerInputs, daily_loss_limit, max_drawdown_limit, weekly_loss_limit,
}
use crypto_bot_quant.Risk.Portfolio.{Position}
use crypto_bot_quant.Risk.Manager.Defs.{AccountState, RiskDecision, Action, block, Reason, breaker}
use crypto_bot_quant.Risk.Manager.Decide as Manager
use crypto_bot_quant.Risk.State.{RiskStateStore, refresh, is_tripped, trip}
use crypto_bot_quant.Execution.Config.{ExecutionPolicyConfig}
use crypto_bot_quant.Execution.Order.Build.{no_fixed_tp_frac}
use crypto_bot_quant.Execution.Venue.{Fill, VenuePosition, has_stop}
use crypto_bot_quant.Execution.Ownership.{OwnershipPolicy}
use crypto_bot_quant.Execution.Engine.{Request, ExecutionResult, execute}
use crypto_bot_quant.Paper.Session.{
  PaperTrade, PaperSession, PaperReason, halt_pending_manual_reset, setup_blocked, risk_refused,
  exec_refused, approved_entry, is_open,
}
use crypto_bot_quant.Paper.Engine.{
  PaperTradingEngine, int_max, int_mul, push_slippage, values, drop_mirrors, register_realized,
  cumulative_funding_paid, abnormal_slippage_active, calendar_windows, roll_loss_windows,
}
use crypto_bot_quant.Paper.Exits.{PaperVenue, Trading, exit_slip_frac, in_risk_units}
use crypto_bot_quant.Paper.Input.{
  PaperCandidateInput, Pipeline, Moment, default_request, manual_reset, is_block, nonzero, refuse,
}
use crypto_bot_quant.Paper.Entry.{book_entry}

module _ {W S : Type 0} ⦃f : Float W⦄ where
  -- `self._state_store.tripped_reason()`, which reads the file again.
  unfoldable pub check_halt : PaperTradingEngine W S → Bool × PaperTradingEngine W S
  check_halt e = elim e.state_store [
    | none ↦ (false, e)
    | some store ↦ (is_tripped store, record e { state_store = some (refresh store) })
  ]

  -- The equity, its peak, and the results of the day and of the week that the breakers read.
  unfoldable pub loss_view :
      Moment
      → PaperCandidateInput W
      → PaperTradingEngine W S
      → Result (W × W × W × W) × PaperTradingEngine W S
  loss_view m inp e = elim e.account_equity [
    | some equity ↦
        let peak = max (max e.peak_equity equity) inp.peak_equity in
        let ts =
          if leb_ℤ inp.candidate.decision_ts (pos 0)
          then m.clock_ts
          else inp.candidate.decision_ts in
        let (windows, e1) =
          calendar_windows m.wrote_anchors ts equity (record e { peak_equity = peak }) in
        (elim windows [ raised x ↦ raised x | ok (day, week) ↦ ok (equity, peak, day, week) ], e1)
    | none ↦
        let e1 = roll_loss_windows inp.candidate.decision_ts e in
        let equity = inp.equity + e1.realized_pnl in
        let peak = max (max e1.sim_peak_equity equity) inp.peak_equity in
        (
          ok (
            equity,
            peak,
            inp.daily_pnl + (e1.realized_pnl - e1.day_start_realized),
            e1.realized_pnl - e1.week_start_realized,
          ),
          record e1 { sim_peak_equity = peak },
        )
  ]

  -- The account that the risk manager sees.
  unfoldable pub account_of :
      W → PaperCandidateInput W → W × W × W × W → PaperTradingEngine W S → AccountState W
  account_of max_slippage_frac inp (equity, peak, day, week) e = record {
    portfolio = record { equity = equity; positions = values e.open_positions };
    breakers = record {
      equity = equity;
      peak_equity = peak;
      daily_pnl = day;
      consecutive_losses = int_max inp.consecutive_losses e.consecutive_losses;
      abnormal_slippage_active = abnormal_slippage_active max_slippage_frac e;
      reconciled = not inp.inject_foreign_order;
      weekly_pnl = week;
      cumulative_funding_paid = cumulative_funding_paid e;
      per_symbol_pnl = e.per_symbol_pnl;
    };
    unknown_order_present = inp.inject_foreign_order;
    free_margin = e.free_margin;
    liquidation_price = none;
  }

  -- The latch of a breaker that needs a manual reset.
  unfoldable pub latch :
      (BreakerReason W → String)
      → Bool
      → ℤ
      → RiskDecision W
      → PaperTradingEngine W S
      → PaperTradingEngine W S
  latch text_of wrote decision_ts decision e = elim e.state_store [
    | none ↦ e
    | some store ↦ elim (manual_reset decision.blocker) [
      | none ↦ e
      | some r ↦
          if is_block decision.action
          then record e { state_store = some (trip wrote (text_of r) (nonzero decision_ts) store) }
          else e
    ]
  ]

  -- The snapshot of the account: what the venue reports, where it has the method and it returns.
  unfoldable pub snapshot : Option W → Option W → Trading W S → Trading W S
  snapshot reported_margin reported_equity (e, s) =
      let e1 = record e { free_margin = reported_margin } in
      elim reported_equity [
        | none ↦ (e1, s)
        | some equity ↦ elim e1.session_start_equity [
          | none ↦ (
            record e1 {
              account_equity = some equity;
              session_start_equity = some equity;
              peak_equity = max e1.peak_equity equity;
            },
            record s { initial_equity = equity },
          )
          | some start ↦ (
            record e1 { account_equity = some equity; peak_equity = max e1.peak_equity equity },
            s,
          )
        ]
      ]

module _ {W S : Type 0} ⦃f : Float W⦄ (venue : PaperVenue W S) (p : Pipeline W) where
  -- The end of `_process_one`, once the execution has returned.
  unfoldable pub conclude :
      Moment
      → PaperCandidateInput W
      → RiskDecision W
      → ExecutionResult W
      → Trading W S
      → Result (Unit {0}) × Trading W S
  conclude m inp decision result (e, s) =
      if not result.placed
      then (ok tt, (e, refuse m inp.candidate (exec_refused result.reason) true s))
      else elim result.fill [
        | none ↦ (raised assertion_error, (e, s))
        | some fill ↦ elim result.position [
          | none ↦ (raised assertion_error, (e, s))
          | some position ↦ book_entry venue p m inp decision fill position (e, s)
        ]
      ]

  -- What follows the answer of the execution.
  unfoldable pub answered :
      Moment
      → PaperCandidateInput W
      → RiskDecision W
      → Trading W S
      → Result (ExecutionResult W × OwnershipPolicy) × S
      → Result (Unit {0}) × Trading W S
  answered m inp decision (e, s) (raised x, after) = (raised x, (record e { venue = after }, s))
  answered m inp decision (e, s) (ok (result, owner), after) =
      conclude m inp decision result (record e { venue = after; ownership = owner }, s)

  -- The execution of an approved decision.
  unfoldable pub enter :
      Moment
      → PaperCandidateInput W
      → RiskDecision W
      → Trading W S
      → Result (Unit {0}) × Trading W S
  enter m inp decision (e, s) =
      answered m inp decision (e, s)
        (execute venue.orders p.exec_cfg p.meta e.ownership m.killed_at_execution inp.candidate
          decision default_request e.venue)

  -- The setup score and the risk manager, for an account.
  unfoldable pub judge :
      Moment
      → PaperCandidateInput W
      → AccountState W
      → Trading W S
      → Result (Unit {0}) × Trading W S
  judge m inp account (e, s) =
      let c = inp.candidate in
      elim (score p.rank_cfg p.meta p.no_trade c default_context) [
        | raised x ↦ (raised x, (e, s))
        | ok setup ↦
            if not (is_empty setup.blockers)
            then (ok tt, (e, refuse m c (setup_blocked setup.blockers) false s))
            else elim (Manager.evaluate p.risk_cfg p.meta m.killed_at_risk c account) [
              | raised x ↦ (raised x, (e, s))
              | ok decision ↦
                  if not decision.approved
                  then (
                    ok tt,
                    (
                      latch p.text_of m.wrote_halt c.decision_ts decision e,
                      refuse m c (risk_refused decision.action) false s,
                    ),
                  )
                  else enter m inp decision (e, s)
            ]
      ]

  -- What follows the view of the losses.
  unfoldable pub assess :
      Moment
      → PaperCandidateInput W
      → PaperSession W
      → Result (W × W × W × W) × PaperTradingEngine W S
      → Result (Unit {0}) × Trading W S
  assess m inp s (raised x, e) = (raised x, (e, s))
  assess m inp s (ok seen, e) =
      judge m inp (account_of p.exec_cfg.max_slippage_frac inp seen e) (e, s)

  -- `_process_one`
  unfoldable pub process_one :
      Moment → PaperCandidateInput W → Trading W S → Result (Unit {0}) × Trading W S
  process_one m inp (e, s) =
      let (halted, e1) = check_halt e in
      if halted
      then (ok tt, (e1, refuse m inp.candidate halt_pending_manual_reset false s))
      else assess m inp s (loss_view m inp e1)

  -- The loop of `process_candidates`.
  unfoldable pub process_all :
      List (Moment × PaperCandidateInput W) → Trading W S → Result (Unit {0}) × Trading W S
  process_all [] st = (ok tt, st)
  process_all ((m, inp) ∷ rest) st =
      let (r, st1) = process_one m inp st in
      elim r [ raised x ↦ (raised x, st1) | ok done ↦ process_all rest st1 ]

  -- `process_candidates`
  unfoldable pub process_candidates :
      Option W
      → Option W
      → List (Moment × PaperCandidateInput W)
      → Trading W S
      → Result (Unit {0}) × Trading W S
  process_candidates reported_margin reported_equity inputs st =
      process_all inputs (snapshot reported_margin reported_equity st)
