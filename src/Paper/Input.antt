-- ===== src/Paper/Input.antt =====
-- src/paper/engine.py: what `_process_one` is given, and what it records of a candidate. The texts of
-- the breakers' reasons come from the pipeline, the answers of the kill switch and of the clock from
-- a `Moment`.
use crypto_bot_quant.Base.{
  Bool, true, false, String, Option, none, some, List, [], ◌∷◌, ◌++◌, ◌&&◌, if◌then◌else◌,
}
use crypto_bot_quant.Base.Int.{ℤ, pos, leb_ℤ}
use crypto_bot_quant.Base.Float.{Float, nought, one}
use crypto_bot_quant.Exchange.Metadata.{MetadataConfig}
use crypto_bot_quant.Ranking.Candidate.{Candidate}
use crypto_bot_quant.Ranking.Setup.{RankingConfig}
use crypto_bot_quant.Risk.Config.{RiskConfig}
use crypto_bot_quant.Risk.Breakers.{
  BreakerReason, daily_loss_limit, max_drawdown_limit, weekly_loss_limit,
}
use crypto_bot_quant.Risk.Manager.Defs.{Action, block, Reason, breaker}
use crypto_bot_quant.Execution.Config.{ExecutionPolicyConfig}
use crypto_bot_quant.Execution.Engine.{Request}
use crypto_bot_quant.Paper.Session.{PaperSession, PaperReason, approved_entry}

pub record PaperCandidateInput (W : Type 0) : Type 0 where
  pub candidate : Candidate W
  pub equity : W
  pub daily_pnl : W
  pub open_risk : W
  pub peak_equity : W
  pub consecutive_losses : ℤ
  pub inject_foreign_order : Bool
  pub exit_move_frac : W
  pub hold_bars : ℤ
  pub exit_reason : Option String
  pub funding_frac : W

-- What is constructed once: the configurations, and the texts of the breakers.
pub record Pipeline (W : Type 0) : Type 0 where
  pub risk_cfg : RiskConfig W
  pub exec_cfg : ExecutionPolicyConfig W
  pub rank_cfg : RankingConfig W
  pub meta : MetadataConfig W
  pub no_trade : List String
  pub text_of : BreakerReason W → String

-- The answers of the kill switch to the log, to the risk manager and to the execution; whether the
-- anchors, the halt and the result are written; the clock and the fresh id.
pub record Moment : Type 0 where
  pub killed : Bool
  pub killed_at_risk : Bool
  pub killed_at_execution : Bool
  pub wrote_anchors : Bool
  pub wrote_halt : Bool
  pub wrote_result : Bool
  pub clock_ts : ℤ
  pub now_ts : ℤ
  pub trade_id : String

-- `execute` without keyword arguments.
abbrev pub default_request : {W : Type 0} → ⦃f : Float W⦄ → Request W
default_request = record {
  realized_slippage_frac = none;
  signal_age_ms = nought;
  fill_ratio = one;
  entry_style = none;
}

-- The breaker whose text starts with one of `_MANUAL_RESET_BLOCKERS`.
abbrev pub manual_reset : {W : Type 0} → Option (Reason W) → Option (BreakerReason W)
manual_reset (some (breaker (daily_loss_limit x))) = some (daily_loss_limit x)
manual_reset (some (breaker (max_drawdown_limit x))) = some (max_drawdown_limit x)
manual_reset (some (breaker (weekly_loss_limit x))) = some (weekly_loss_limit x)
manual_reset _ = none

abbrev pub is_block : Action → Bool
is_block block = true
is_block _ = false

-- `int(ts or 0) or None`
abbrev pub nonzero : ℤ → Option ℤ
nonzero ts = if leb_ℤ ts (pos 0) && leb_ℤ (pos 0) ts then none else some ts

-- The two appends of a refusal.
unfoldable pub refuse :
    {W : Type 0} → Moment → Candidate W → PaperReason W → Bool → PaperSession W → PaperSession W
refuse m c reason risk_approved s = record s {
  rejected =
      s.rejected
      ++ record {
        symbol = c.symbol;
        strategy = c.strategy;
        side = c.side;
        regime = c.regime;
        decision_ts = c.decision_ts;
        reason = reason;
      }
        ∷ [];
  decision_logs =
      s.decision_logs
      ++ record {
        symbol = c.symbol;
        strategy = c.strategy;
        regime = c.regime;
        side = c.side;
        action = "reject";
        reason = reason;
        risk_approved = risk_approved;
        strategy_version = c.strategy_version;
        kill_switch_engaged = m.killed;
      }
        ∷ [];
}

-- The log of an executed candidate.
unfoldable pub accepted : {W : Type 0} → Moment → Candidate W → PaperSession W → PaperSession W
accepted m c s = record s {
  decision_logs =
      s.decision_logs
      ++ record {
        symbol = c.symbol;
        strategy = c.strategy;
        regime = c.regime;
        side = c.side;
        action = "execute";
        reason = approved_entry;
        risk_approved = true;
        strategy_version = c.strategy_version;
        kill_switch_engaged = m.killed;
      }
        ∷ [];
}
