-- ===== src/Paper/Lockstep/Running.antt =====
-- Entries keep the mirrors in lock-step, and so does every run of the engine.
use crypto_bot_quant.Base.{
  Bool, String, Option, List, [], ◌∷◌, ◌≡◌, sym, subst, arith, Bool-cases, Option-cases, inl, inr,
  is_empty,
}
use crypto_bot_quant.Base.Int.{ℤ}
use crypto_bot_quant.Base.Result.{Result, ok, raised, Result-cases}
use crypto_bot_quant.Base.Float.{Float}
use crypto_bot_quant.Ranking.Candidate.{Candidate}
use crypto_bot_quant.Ranking.Setup.{default_context, score}
use crypto_bot_quant.Risk.Breakers.{BreakerReason}
use crypto_bot_quant.Risk.Manager.Defs.{AccountState, RiskDecision}
use crypto_bot_quant.Risk.Manager.Decide as Manager
use crypto_bot_quant.Execution.Ownership.{OwnershipPolicy}
use crypto_bot_quant.Execution.Venue.{Fill, VenuePosition}
use crypto_bot_quant.Execution.Engine.{ExecutionResult}
use crypto_bot_quant.Paper.Session.{PaperTrade, PaperSession, is_open}
use crypto_bot_quant.Paper.Engine.{
  PaperTradingEngine, persist_state, roll_loss_windows, calendar_windows, roll_anchors,
}
use crypto_bot_quant.Paper.Funding.{FundingSource}
use crypto_bot_quant.Paper.Exits.{PaperVenue, Trading, Bar}
use crypto_bot_quant.Paper.Booking.{simulate_paper_exits, book_exchange_exit}
use crypto_bot_quant.Paper.Input.{PaperCandidateInput, Pipeline, Moment}
use crypto_bot_quant.Paper.Entry.{open_mirrors, mirror, resolve, exit_costs, book_entry}
use crypto_bot_quant.Paper.Process.{
  check_halt, loss_view, latch, snapshot, conclude, answered, enter, judge, assess, process_one,
  process_all, process_candidates,
}
use crypto_bot_quant.Paper.Lockstep.{
  IsLockstep, mirrors, keyed-insert, insert-IsUnique, drop_mirrors-Lockstep,
  register_realized-mirrors,
}
use crypto_bot_quant.Paper.Lockstep.Closing.{
  simulate_paper_exits-Lockstep, book_exchange_exit-Lockstep,
}

module _ {W S : Type 0} ⦃f : Float W⦄ where
  check_halt-mirrors : (e : PaperTradingEngine W S) → mirrors (check_halt e).1 ≡ mirrors e
  unfolding check_halt
  check_halt-mirrors e = ground arith

  loss_view-mirrors :
      (m : Moment) (inp : PaperCandidateInput W) (e : PaperTradingEngine W S)
      → mirrors (loss_view m inp e).1 ≡ mirrors e
  unfolding loss_view calendar_windows roll_loss_windows roll_anchors persist_state
  loss_view-mirrors m inp e = ground arith

  latch-mirrors :
      (text_of : BreakerReason W → String) (w : Bool) (ts : ℤ) (d : RiskDecision W)
      (e : PaperTradingEngine W S)
      → mirrors (latch text_of w ts d e) ≡ mirrors e
  unfolding latch
  latch-mirrors text_of w ts d e = ground arith

  snapshot-mirrors :
      (margin equity : Option W) (st : Trading W S)
      → mirrors (snapshot margin equity st).0 ≡ mirrors st.0
  unfolding snapshot
  snapshot-mirrors margin equity st = ground arith

module _ {W S : Type 0} ⦃f : Float W⦄ (venue : PaperVenue W S) (p : Pipeline W) where
  open_mirrors-Lockstep :
      (m : Moment) (c : Candidate W) (risk : W) (t : PaperTrade W) (e : PaperTradingEngine W S)
      → IsLockstep (mirrors e)
      → IsLockstep (mirrors (open_mirrors venue p m c risk t e))
  unfolding open_mirrors
  open_mirrors-Lockstep m c risk t e h =
      let k = c.symbol in
      record {
        unique = insert-IsUnique k _ e.open_positions h.unique;
        meta = keyed-insert k _ _ e.position_meta e.open_positions h.meta;
        levels = keyed-insert k _ _ e.exit_levels e.open_positions h.levels;
        funding = keyed-insert k _ _ e.position_funding e.open_positions h.funding;
        watermark = keyed-insert k _ _ e.funding_watermark e.open_positions h.watermark;
        trail = keyed-insert k _ _ e.trail_dist e.open_positions h.trail;
        peak = keyed-insert k _ _ e.peak e.open_positions h.peak;
      }

  mirror-Lockstep :
      (m : Moment) (c : Candidate W) (risk : W) (t : PaperTrade W) (e : PaperTradingEngine W S)
      → IsLockstep (mirrors e)
      → IsLockstep (mirrors (mirror venue p m c risk t e))
  unfolding mirror
  mirror-Lockstep m c risk t e h = elim (Bool-cases (is_open t)) [
    | inl b ↦ simp (b, mirror) (open_mirrors-Lockstep m c risk t e h)
    | inr b ↦
        simp (b, mirror)
          (subst IsLockstep
            (sym (register_realized-mirrors m.wrote_result c.symbol t.pnl t.funding _))
            (drop_mirrors-Lockstep c.symbol e h))
  ]

  book_entry-Lockstep :
      (m : Moment) (inp : PaperCandidateInput W) (d : RiskDecision W) (fill : Fill W)
      (position : VenuePosition W) (e : PaperTradingEngine W S) (s : PaperSession W)
      → IsLockstep (mirrors e)
      → IsLockstep (mirrors (book_entry venue p m inp d fill position (e, s)).1.0)
  unfolding book_entry
  book_entry-Lockstep m inp d fill position e s h =
      elim (Result-cases (exit_costs p.meta inp.candidate fill (resolve inp fill))) [
        | inr (x, g) ↦ rw (g, book_entry) h
        | inl (x, g) ↦ rw (g, book_entry) (mirror-Lockstep m inp.candidate _ _ _ h)
      ]

  conclude-Lockstep :
      (m : Moment) (inp : PaperCandidateInput W) (d : RiskDecision W) (r : ExecutionResult W)
      (e : PaperTradingEngine W S) (s : PaperSession W)
      → IsLockstep (mirrors e)
      → IsLockstep (mirrors (conclude venue p m inp d r (e, s)).1.0)
  unfolding conclude
  conclude-Lockstep m inp d r e s h = elim (Bool-cases r.placed) [
    | inr b ↦ simp (b, conclude) h
    | inl b ↦ elim (Option-cases r.fill) [
      | inl g ↦ simp (b, g, conclude) h
      | inr (fill, g) ↦ elim (Option-cases r.position) [
        | inl q ↦ simp (b, g, q, conclude) h
        | inr (position, q) ↦
            simp (b, g, q, conclude) (book_entry-Lockstep m inp d fill position e s h)
      ]
    ]
  ]

  answered-Lockstep :
      (m : Moment) (inp : PaperCandidateInput W) (d : RiskDecision W) (st : Trading W S)
      (r : Result (ExecutionResult W × OwnershipPolicy)) (after : S)
      → IsLockstep (mirrors st.0)
      → IsLockstep (mirrors (answered venue p m inp d st (r, after)).1.0)
  unfolding answered
  answered-Lockstep m inp d (e, s) (raised x) after h = h
  answered-Lockstep m inp d (e, s) (ok (r, owner)) after h = conclude-Lockstep m inp d r _ s h

  judge-Lockstep :
      (m : Moment) (inp : PaperCandidateInput W) (account : AccountState W)
      (e : PaperTradingEngine W S) (s : PaperSession W)
      → IsLockstep (mirrors e)
      → IsLockstep (mirrors (judge venue p m inp account (e, s)).1.0)
  unfolding judge enter
  judge-Lockstep m inp account e s h =
      let c = inp.candidate in
      elim (Result-cases (score p.rank_cfg p.meta p.no_trade c default_context)) [
        | inr (x, g) ↦ rw (g, judge) h
        | inl (setup, g) ↦ elim (Bool-cases (is_empty setup.blockers)) [
          | inr b ↦ rw (g, b, judge) h
          | inl b ↦
              elim (Result-cases (Manager.evaluate p.risk_cfg p.meta m.killed_at_risk c account)) [
                | inr (x, q) ↦ rw (g, b, q, judge) h
                | inl (d, q) ↦ elim (Bool-cases d.approved) [
                  | inr a ↦
                      simp (g, b, q, a, judge)
                        (subst IsLockstep
                          (sym (latch-mirrors p.text_of m.wrote_halt c.decision_ts d e)) h)
                  | inl a ↦ simp (g, b, q, a, judge) (answered-Lockstep m inp d (e, s) _ _ h)
                ]
              ]
        ]
      ]

  assess-Lockstep :
      (m : Moment) (inp : PaperCandidateInput W) (s : PaperSession W) (r : Result (W × W × W × W))
      (e : PaperTradingEngine W S)
      → IsLockstep (mirrors e)
      → IsLockstep (mirrors (assess venue p m inp s (r, e)).1.0)
  unfolding assess
  assess-Lockstep m inp s (raised x) e h = h
  assess-Lockstep m inp s (ok seen) e h = judge-Lockstep m inp _ e s h

  process_one-Lockstep :
      (m : Moment) (inp : PaperCandidateInput W) (st : Trading W S)
      → IsLockstep (mirrors st.0)
      → IsLockstep (mirrors (process_one venue p m inp st).1.0)
  unfolding process_one
  process_one-Lockstep m inp (e, s) h =
      let e1 = (check_halt e).1 in
      let checked = subst IsLockstep (sym (check_halt-mirrors e)) h in
      elim (Bool-cases (check_halt e).0) [
        | inl b ↦ rw (b, process_one) checked
        | inr b ↦
            rw (b, process_one)
              (assess-Lockstep m inp s (loss_view m inp e1).0 (loss_view m inp e1).1
                (subst IsLockstep (sym (loss_view-mirrors m inp e1)) checked))
      ]

  process_all-Lockstep :
      (inputs : List (Moment × PaperCandidateInput W)) (st : Trading W S)
      → IsLockstep (mirrors st.0)
      → IsLockstep (mirrors (process_all venue p inputs st).1.0)
  unfolding process_all
  process_all-Lockstep [] st h = h
  process_all-Lockstep ((m, inp) ∷ rest) st h =
      let kept = process_one-Lockstep m inp st h in
      elim (Result-cases (process_one venue p m inp st).0) [
        | inr (x, g) ↦ simp (g, process_all) kept
        | inl (u, g) ↦
            simp (g, process_all) (process_all-Lockstep rest (process_one venue p m inp st).1 kept)
      ]

  -- What a session does with its engine: a batch of candidates, the exits of a bar, and an exit that
  -- the exchange reports; a run is any sequence of these.
  pub data Run : Trading W S → Trading W S → Type 0 where
    started : {st : Trading W S} → Run st st
    batch :
        {st0 st : Trading W S} (margin equity : Option W)
        (inputs : List (Moment × PaperCandidateInput W))
        → Run st0 st
        → Run st0 (process_candidates venue p margin equity inputs st).1
    bar :
        {st0 st : Trading W S} (source : Option (FundingSource W)) (mult : W) (b : Bar W)
        (charge : Bool)
        → Run st0 st
        → Run st0 (simulate_paper_exits p.meta venue source mult b charge st).1
    exchange_exit :
        {st0 st : Trading W S} (w : Bool) (symbol : String) (price fee : W) (now : ℤ)
        (reason : String)
        → Run st0 st
        → Run st0 (book_exchange_exit w symbol price fee now reason st).1

  -- Along every run, exceptions included, the six mirrors have exactly the symbols of the open
  -- positions, and no symbol is open twice, if that is so at the start.
  pub run_keeps-Lockstep :
      (st0 st : Trading W S) → Run st0 st → IsLockstep (mirrors st0.0) → IsLockstep (mirrors st.0)
  unfolding process_candidates
  run_keeps-Lockstep st0 st started h = h
  run_keeps-Lockstep st0 st (batch margin equity inputs r) h =
      process_all-Lockstep inputs _
        (subst IsLockstep (sym (snapshot-mirrors margin equity _)) (run_keeps-Lockstep st0 _ r h))
  run_keeps-Lockstep st0 st (bar source mult b charge r) h =
      simulate_paper_exits-Lockstep p.meta venue source mult b charge _
        (run_keeps-Lockstep st0 _ r h)
  run_keeps-Lockstep st0 st (exchange_exit w k x fee now reason r) h =
      book_exchange_exit-Lockstep p.meta venue w k x fee now reason _ _
        (run_keeps-Lockstep st0 _ r h)
