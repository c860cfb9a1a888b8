-- ===== src/Live/DemoGuard.antt =====
-- src/live/demo_guard.py: the readiness check before demo orders, over the kill switch, the ownership
-- policy, the risk configuration, the exchange metadata and the reconciliation. The strategies'
-- verdicts, which the database gives, and the configured symbols are arguments; the texts of the
-- details are left out.
pub mod Readiness
use crypto_bot_quant.Base.{
  Bool, true, false, not, String, Option, none, some, List, [], ◌∷◌, ◌&&◌, ◌||◌, map, if◌then◌else◌,
  str_eq, elem, any, is_empty, is_some,
}
use crypto_bot_quant.Base.Int.{pos, leb_ℤ}
use crypto_bot_quant.Base.Result.{Result, ok, raised, ◌>>=◌}
use crypto_bot_quant.Base.Dict.{Dict, keys}
use crypto_bot_quant.Base.Float.{Float, lt, le, nought, one}
use crypto_bot_quant.Exchange.Metadata.{MetadataConfig}
use crypto_bot_quant.Exchange.Tradable.{tradable_blocker}
use crypto_bot_quant.Risk.Config.{RiskConfig}
use crypto_bot_quant.Risk.Envelope.{
  hard_ceiling, max_leverage, max_risk_pct_per_trade, portfolio_heat_cap, net_beta_btc_cap,
}
use crypto_bot_quant.Execution.Order.{Order}
use crypto_bot_quant.Execution.Ownership.{OwnershipPolicy, configured}
use crypto_bot_quant.Execution.Venue.{VenuePosition, SimulatedVenue}
use crypto_bot_quant.Execution.Reconciliation.{reconcile_startup}
use crypto_bot_quant.KillSwitch.{Environment, KillSwitch, engaged}

pub data Status : Type 0 where
  pass fail blocked : Status

pub record ReadinessCheck : Type 0 where
  pub name : String
  pub status : Status

pub record DemoReadinessReport : Type 0 where
  pub verdict : Status
  pub environment : String
  pub checks : List ReadinessCheck

-- What the configuration and the database say of a basket's candidate, and its validation.
pub record Verdict : Type 0 where
  pub real_data : Bool
  pub promoted : Bool

pub record BasketCandidate : Type 0 where
  pub cross_sectional : Bool
  pub verdict : Option Verdict

-- A connected venue, with the orders and the positions on the exchange.
pub record Book (W : Type 0) : Type 0 where
  pub venue : SimulatedVenue W
  pub orders : Dict (Order W)
  pub positions : Dict (VenuePosition W)

-- `symbols` is the explicit scope, `session_symbols` what the session's data configuration gives and
-- `default_symbols` what the default one does. `candidate` is the basket's, by its id.
pub record DemoReadinessGuard (W : Type 0) : Type 0 where
  pub environment : String
  pub exchange_id : String
  pub ownership : OwnershipPolicy
  pub risk : RiskConfig W
  pub metadata : MetadataConfig W
  pub symbols : Option (List String)
  pub session_symbols : Option (Result (List String))
  pub default_symbols : Result (List String)
  pub basket_candidate_id : Option String
  pub candidate : String → Option BasketCandidate
  pub active_strategies : List String
  pub reference_only : List String
  pub book : Option (Book W)

abbrev pub is_fail : Status → Bool
is_fail fail = true
is_fail _ = false

abbrev pub is_blocked : Status → Bool
is_blocked blocked = true
is_blocked _ = false

-- `_worst`
unfoldable pub worst : List Status → Status
worst statuses =
    if any is_fail statuses then fail else if any is_blocked statuses then blocked else pass

abbrev pub check_of : String → Status → ReadinessCheck
check_of name status = record { name = name; status = status }

unfoldable pub check_environment : String → ReadinessCheck
check_environment environment = check_of "environment" (
    if str_eq environment "live"
    then fail
    else if elem environment ("demo" ∷ "testnet" ∷ [])
    then pass
    else fail)

unfoldable pub check_ownership_prefix : OwnershipPolicy → ReadinessCheck
check_ownership_prefix p = check_of "order_ownership" (if configured p then pass else fail)

abbrev pub kill_switch_check : Bool → ReadinessCheck
kill_switch_check halted = check_of "kill_switch" (if halted then fail else pass)

unfoldable pub check_tp_sl_capability : List String → ReadinessCheck
check_tp_sl_capability types = check_of "tp_sl_capability" (
    if (elem "stop_market" types || elem "stop_limit" types)
      && (elem "take_profit_market" types || elem "trailing_stop" types)
    then pass
    else blocked)

unfoldable pub check_strategy_eligibility : List String → ReadinessCheck
check_strategy_eligibility eligible =
    check_of "strategy_eligibility" (if is_empty eligible then blocked else pass)

unfoldable pub check_basket_eligibility : Option BasketCandidate → ReadinessCheck
check_basket_eligibility none = check_of "strategy_eligibility" fail
check_basket_eligibility (some candidate) = check_of "strategy_eligibility" (
    if candidate.cross_sectional
    then elim candidate.verdict [
      | none ↦ blocked
      | some row ↦ if row.real_data then pass else blocked
    ]
    else fail)

-- `self.basket_candidate_id`, where an empty text is false
abbrev pub check_eligibility :
    Option String → (String → Option BasketCandidate) → List String → ReadinessCheck
check_eligibility none candidate eligible = check_strategy_eligibility eligible
check_eligibility (some id) candidate eligible =
    if str_eq id ""
    then check_strategy_eligibility eligible
    else check_basket_eligibility (candidate id)

module _ {W : Type 0} ⦃f : Float W⦄ where
  -- `0 < x <= ceiling`
  abbrev pub is_bounded : W → W → Bool
  is_bounded x ceiling = lt nought x && le x ceiling

  abbrev pub has_sane_caps : RiskConfig W → Bool
  has_sane_caps cfg =
      leb_ℤ (pos 1) cfg.max_concurrent_per_symbol
      && leb_ℤ (pos 1) cfg.max_concurrent_total
      && is_bounded cfg.envelope.max_risk_pct_per_trade (hard_ceiling max_risk_pct_per_trade)
      && is_bounded cfg.envelope.portfolio_heat_cap (hard_ceiling portfolio_heat_cap)
      && is_bounded cfg.envelope.net_beta_btc_cap (hard_ceiling net_beta_btc_cap)
      && le one cfg.envelope.max_leverage
      && le cfg.envelope.max_leverage (hard_ceiling max_leverage)

  unfoldable pub check_risk_caps : RiskConfig W → ReadinessCheck
  check_risk_caps cfg = check_of "risk_caps" (if has_sane_caps cfg then pass else fail)

  -- The symbols of the default configuration, or else those of the metadata.
  abbrev pub fallback_symbols : DemoReadinessGuard W → List String
  fallback_symbols g = elim g.default_symbols [
    | raised e ↦ keys g.metadata.specs
    | ok syms ↦ if is_empty syms then keys g.metadata.specs else syms
  ]

  -- `_active_symbols`
  unfoldable pub active_symbols : DemoReadinessGuard W → List String
  active_symbols g = elim g.symbols [
    | some syms ↦ syms
    | none ↦ elim g.session_symbols [
      | some (ok syms) ↦ if is_empty syms then fallback_symbols g else syms
      | _ ↦ fallback_symbols g
    ]
  ]

  -- The symbols that something blocks.
  unfoldable pub blocked_symbols : MetadataConfig W → String → List String → Result (List String)
  blocked_symbols meta exchange_id [] = ok []
  blocked_symbols meta exchange_id (sym ∷ syms) = do
    blocker ← tradable_blocker meta sym (some exchange_id)
    rest ← blocked_symbols meta exchange_id syms
    ok (if is_some blocker then sym ∷ rest else rest)

  unfoldable pub check_metadata : DemoReadinessGuard W → Result ReadinessCheck
  check_metadata g = do
    blockers ← blocked_symbols g.metadata g.exchange_id (active_symbols g)
    ok (check_of "exchange_metadata" (if is_empty blockers then pass else blocked))

  -- `_check_reconciliation` on the book of the venue, if there is one; it adopts nothing.
  unfoldable pub check_reconciliation : DemoReadinessGuard W → Option (Book W) → ReadinessCheck
  check_reconciliation g none = check_of "reconciliation" blocked
  check_reconciliation g (some book) =
      let result =
        (reconcile_startup g.ownership book.orders book.positions false g.symbols book.venue).0 in
      check_of "reconciliation" (if result.halt_required then blocked else pass)

  -- The report on the kill switch's answer.
  unfoldable pub report : DemoReadinessGuard W → Bool → Result DemoReadinessReport
  report g halted = do
    metadata ← check_metadata g
    let checks =
        check_environment g.environment
        ∷ kill_switch_check halted
        ∷ check_ownership_prefix g.ownership
        ∷ check_risk_caps g.risk
        ∷ metadata
        ∷ check_tp_sl_capability g.metadata.supported_order_types
        ∷ check_eligibility g.basket_candidate_id g.candidate g.active_strategies
        ∷ check_reconciliation g g.book
        ∷ []
    ok record {
      verdict = worst (map (λ c. c.status) checks);
      environment = g.environment;
      checks = checks;
    }

  unfoldable pub evaluate :
      {E : Type 0}
      → Environment W E
      → DemoReadinessGuard W
      → KillSwitch W
      → E
      → Result DemoReadinessReport × KillSwitch W × E
  evaluate v g switch e =
      let (halted, switch1, e1) = engaged v switch e in (report g halted, switch1, e1)
