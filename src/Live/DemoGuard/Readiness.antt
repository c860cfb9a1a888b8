-- ===== src/Live/DemoGuard/Readiness.antt =====
-- What a passing report guarantees.
use crypto_bot_quant.Base.{
  Bool, true, false, not, String, Option, none, some, List, [], ◌∷◌, ◌≡◌, refl, ap, ◌∙◌, arith,
  ◌&&◌, ◌||◌, if◌then◌else◌, str_eq, elem, any, is_empty, is_some, All, All-map, Bool-cases, inl,
  inr,
}
use crypto_bot_quant.Base.Int.{pos}
use crypto_bot_quant.Base.Result.{ok, >>=-eq-ok, ok_inj}
use crypto_bot_quant.Base.Float.{Float, IsOrdered, gt, nought}
use crypto_bot_quant.Exchange.Metadata.{MetadataConfig, VerifiedSpec, find_spec}
use crypto_bot_quant.Exchange.Tradable.{Blocker, tradable_blocker}
use crypto_bot_quant.Exchange.Tradable.Sized.{IsSized, tradable_blocker-IsSized}
use crypto_bot_quant.Execution.Ownership.{configured}
use crypto_bot_quant.Execution.Reconciliation.{reconcile_startup}
use crypto_bot_quant.KillSwitch.{Environment, KillSwitch, engaged}
use crypto_bot_quant.Live.DemoGuard.{
  Status, pass, fail, blocked, BasketCandidate, Book, DemoReadinessGuard, DemoReadinessReport,
  ReadinessCheck, worst, is_fail, is_blocked, check_environment, check_ownership_prefix,
  check_tp_sl_capability, check_strategy_eligibility, check_basket_eligibility, check_eligibility,
  has_sane_caps, check_risk_caps, active_symbols, blocked_symbols, check_metadata,
  check_reconciliation, report, evaluate,
}

each-passes :
    (ss : List Status) → any is_fail ss ≡ false → any is_blocked ss ≡ false → All (λ s. s ≡ pass) ss
each-passes [] h k = tt
each-passes (pass ∷ ss) h k = (refl, each-passes ss h k)
each-passes (fail ∷ ss) h k = cc
each-passes (blocked ∷ ss) h k = cc

-- The worst status is a pass only if each is.
worst-passes : (ss : List Status) → worst ss ≡ pass → All (λ s. s ≡ pass) ss
unfolding worst
worst-passes ss h = each-passes ss (ground arith) (ground arith)

passes-or-fails : (b : Bool) → (if b then pass else fail) ≡ pass → b ≡ true
passes-or-fails true h = refl
passes-or-fails false h = cc

passes-or-blocks : (b : Bool) → (if b then pass else blocked) ≡ pass → b ≡ true
passes-or-blocks true h = refl
passes-or-blocks false h = cc

environment-passes :
    (environment : String)
    → (check_environment environment).status ≡ pass
    → elem environment ("demo" ∷ "testnet" ∷ []) ≡ true
unfolding check_environment
environment-passes environment h = ground arith

-- A candidate that is a basket, with a verdict on real data.
abbrev pub is_validated : Option BasketCandidate → Bool
is_validated none = false
is_validated (some c) =
    c.cross_sectional && elim c.verdict [ none ↦ false | some row ↦ row.real_data ]

-- A strategy that is eligible: one of the active ones, or the named basket.
abbrev pub has_strategy : {W : Type 0} → DemoReadinessGuard W → Bool
has_strategy g = elim g.basket_candidate_id [
  | none ↦ not (is_empty g.active_strategies)
  | some id ↦
      if str_eq id "" then not (is_empty g.active_strategies) else is_validated (g.candidate id)
]

strategy-passes :
    (eligible : List String)
    → (check_strategy_eligibility eligible).status ≡ pass
    → not (is_empty eligible) ≡ true
unfolding check_strategy_eligibility
strategy-passes eligible h = ground arith

basket-passes :
    (c : Option BasketCandidate)
    → (check_basket_eligibility c).status ≡ pass
    → is_validated c ≡ true
unfolding check_basket_eligibility
basket-passes none h = cc
basket-passes (some c) h = ground arith

eligibility-passes :
    (id : Option String) (candidate : String → Option BasketCandidate) (eligible : List String)
    → (check_eligibility id candidate eligible).status ≡ pass
    → elim id [
      | none ↦ not (is_empty eligible)
      | some i ↦ if str_eq i "" then not (is_empty eligible) else is_validated (candidate i)
    ]
      ≡ true
eligibility-passes none candidate eligible = strategy-passes eligible
eligibility-passes (some id) candidate eligible = elim (Bool-cases (str_eq id "")) [
  | inl e ↦ rw e (strategy-passes eligible)
  | inr e ↦ rw e (basket-passes (candidate id))
]

-- The order types that protect a position.
abbrev pub has_exits : List String → Bool
has_exits types =
    (elem "stop_market" types || elem "stop_limit" types)
    && (elem "take_profit_market" types || elem "trailing_stop" types)

exits-pass :
    (types : List String) → (check_tp_sl_capability types).status ≡ pass → has_exits types ≡ true
unfolding check_tp_sl_capability
exits-pass types h = passes-or-blocks (has_exits types) h

kept :
    (b : Option Blocker) (s : String) (rest : List String)
    → is_empty (if is_some b then s ∷ rest else rest) ≡ true
    → (b ≡ none) × (is_empty rest ≡ true)
kept none s rest h = (refl, h)
kept (some x) s rest h = cc

module _ {W : Type 0} ⦃f : Float W⦄ where
  unblocked-symbols :
      (meta : MetadataConfig W) (exchange_id : String) (syms blockers : List String)
      → blocked_symbols meta exchange_id syms ≡ ok blockers
      → is_empty blockers ≡ true
      → All (λ s. tradable_blocker meta s (some exchange_id) ≡ ok none) syms
  unfolding blocked_symbols
  unblocked-symbols meta exchange_id [] blockers h e = tt
  unblocked-symbols meta exchange_id (s ∷ syms) blockers h e =
      let (blocker, e1, e2) = >>=-eq-ok (tradable_blocker meta s (some exchange_id)) _ h in
      let (rest, e3, e4) = >>=-eq-ok (blocked_symbols meta exchange_id syms) _ e2 in
      let (clear, others) = kept blocker s rest (ap is_empty (ok_inj e4) ∙ e) in
      (e1 ∙ ap ok clear, unblocked-symbols meta exchange_id syms rest e3 others)

  metadata-passes :
      (g : DemoReadinessGuard W) (c : ReadinessCheck)
      → check_metadata g ≡ ok c
      → c.status ≡ pass
      → All (λ s. tradable_blocker g.metadata s (some g.exchange_id) ≡ ok none) (active_symbols g)
  unfolding check_metadata
  metadata-passes g c h e =
      let syms = active_symbols g in
      let (blockers, e1, e2) = >>=-eq-ok (blocked_symbols g.metadata g.exchange_id syms) _ h in
      unblocked-symbols g.metadata g.exchange_id syms blockers e1
        (passes-or-blocks (is_empty blockers) (ap (λ x. x.status) (ok_inj e2) ∙ e))

  -- The halt that the reconciliation of a book asks for.
  abbrev pub halts : DemoReadinessGuard W → Book W → Bool
  halts g book =
      let result =
        (reconcile_startup g.ownership book.orders book.positions false g.symbols book.venue).0 in
      result.halt_required

  reconciliation-passes :
      (g : DemoReadinessGuard W) (o : Option (Book W))
      → (check_reconciliation g o).status ≡ pass
      → (book : Book W) × (o ≡ some book) × (halts g book ≡ false)
  unfolding check_reconciliation
  reconciliation-passes g none h = cc
  reconciliation-passes g (some book) h = (book, refl, ground arith)

  -- What the session may rely on.
  abbrev pub IsReady : DemoReadinessGuard W → Type 0
  IsReady g =
      (elem g.environment ("demo" ∷ "testnet" ∷ []) ≡ true)
      × (configured g.ownership ≡ true)
      × (has_sane_caps g.risk ≡ true)
      × All (λ s. (spec : VerifiedSpec W) × (find_spec g.metadata s ≡ some spec) × IsSized spec)
          (active_symbols g)
      × (has_exits g.metadata.supported_order_types ≡ true)
      × (has_strategy g ≡ true)
      × (book : Book W) × (g.book ≡ some book)
      × (halts g book ≡ false)

  report-IsReady :
      (g : DemoReadinessGuard W) (halted : Bool) (r : DemoReadinessReport)
      → IsOrdered W
      → gt (f.of_int (pos 0)) nought ≡ false
      → report g halted ≡ ok r
      → r.verdict ≡ pass
      → (halted ≡ false) × IsReady g
  unfolding report check_ownership_prefix check_risk_caps
  report-IsReady g halted r o z h e =
      let (metadata, e1, e2) = >>=-eq-ok (check_metadata g) _ h in
      let passed = worst-passes _ (ap (λ x. x.verdict) (ok_inj e2) ∙ e) in
      let rest = passed.1.1.1.1 in
      let book = reconciliation-passes g g.book rest.1.1.1.0 in
      (
        ground (arith, passed.1.0),
        (
          environment-passes g.environment passed.0,
          passes-or-fails (configured g.ownership) passed.1.1.0,
          passes-or-fails (has_sane_caps g.risk) passed.1.1.1.0,
          All-map (λ s. tradable_blocker g.metadata s (some g.exchange_id) ≡ ok none)
              (λ s. (spec : VerifiedSpec W) × (find_spec g.metadata s ≡ some spec) × IsSized spec)
              (active_symbols g)
              (λ s clear.
                let sized = tradable_blocker-IsSized g.metadata s g.exchange_id o z clear in
                (sized.0, sized.1, sized.4))
              (metadata-passes g metadata e1 rest.0),
          exits-pass g.metadata.supported_order_types rest.1.0,
          eligibility-passes g.basket_candidate_id g.candidate g.active_strategies rest.1.1.0,
          book.0,
          book.1,
          book.2,
        ),
      )

  -- A report that passes guarantees that the kill switch was read as released, that the environment
  -- is a virtual one and the bot's orders can be told apart, that the risk caps are above zero and
  -- within the ceilings of the code, that every symbol that the session trades has a spec whose sizes
  -- are read as numbers above zero, that the venue has stops and take-profits, that a strategy is
  -- eligible, and that the book on the exchange was reconciled without a halt. The float of the
  -- integer 0 is not above the float 0.
  pub evaluate_passes-IsReady :
      {E : Type 0} (v : Environment W E) (g : DemoReadinessGuard W) (switch : KillSwitch W) (e : E)
      (r : DemoReadinessReport)
      → IsOrdered W
      → gt (f.of_int (pos 0)) nought ≡ false
      → (evaluate v g switch e).0 ≡ ok r
      → r.verdict ≡ pass
      → ((engaged v switch e).0 ≡ false) × IsReady g
  unfolding evaluate
  evaluate_passes-IsReady v g switch e r o z h p = report-IsReady g (engaged v switch e).0 r o z h p
