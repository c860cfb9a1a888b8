-- ===== src/Paper/Session.antt =====
-- src/paper/session.py: the records of a session. The text of a refusal is a value of `PaperReason`;
-- the estimates, versions and features of a decision log, and the records of explanations and
-- the time stamps of events are left out.
use Prim.Native.Nat.{◌+◌}
use crypto_bot_quant.Base.{
  Bool, String, Option, none, some, List, [], ◌∷◌, ◌&&◌, if◌then◌else◌, str_eq, ℕ, length,
}
use crypto_bot_quant.Base.Int.{ℤ}
use crypto_bot_quant.Risk.Manager.Defs.{Action}
use crypto_bot_quant.Ranking.Setup.{Blocker}
use crypto_bot_quant.Execution.Engine.{Abort}

pub record PaperTrade (W : Type 0) : Type 0 where
  pub trade_id : String
  pub symbol : String
  pub strategy : String
  pub side : ℤ
  pub qty : W
  pub entry_price : W
  pub stop_price : W
  pub tp_price : W
  pub regime : String
  pub session : ℤ
  pub decision_ts : ℤ
  pub entry_ts : ℤ
  pub exit_ts : ℤ
  pub exit_price : W
  pub exit_reason : String
  pub fee : W
  pub slippage_cost : W
  pub pnl : W
  pub pnl_r : W
  pub has_exchange_side_stop : Bool
  pub execution_route : String
  pub spread_bps_at_entry : W
  pub slippage_frac : W
  pub funding : W

-- Why a candidate is not executed: the f-strings of `_process_one`, and "approved" in a log.
pub data PaperReason (W : Type 0) : Type 0 where
  halt_pending_manual_reset : PaperReason W
  setup_blocked : List Blocker → PaperReason W
  risk_refused : Action → PaperReason W
  exec_refused : Option (Abort W) → PaperReason W
  approved_entry : PaperReason W

pub record RejectedPaperCandidate (W : Type 0) : Type 0 where
  pub symbol : String
  pub strategy : String
  pub side : ℤ
  pub regime : String
  pub decision_ts : ℤ
  pub reason : PaperReason W

pub record PaperDecisionLog (W : Type 0) : Type 0 where
  pub symbol : String
  pub strategy : String
  pub regime : String
  pub side : ℤ
  pub action : String
  pub reason : PaperReason W
  pub risk_approved : Bool
  pub strategy_version : String
  pub kill_switch_engaged : Bool

pub record KillSwitchEvent : Type 0 where
  pub action : String
  pub source : String

pub record ReconciliationEvent : Type 0 where
  pub bot_positions : List String
  pub injected_foreign : Bool
  pub halt_triggered : Bool
  pub unknown_orders : List String

pub record PaperSession (W : Type 0) : Type 0 where
  pub trades : List (PaperTrade W)
  pub rejected : List (RejectedPaperCandidate W)
  pub decision_logs : List (PaperDecisionLog W)
  pub initial_equity : W
  pub kill_switch_events : List KillSwitchEvent
  pub reconciliation_events : List ReconciliationEvent
  pub kill_switch_exercised : Bool
  pub foreign_order_halt_triggered : Bool

module _ {W : Type 0} where
  -- `total_candidates`
  abbrev pub total_candidates : PaperSession W → ℕ
  total_candidates s = length s.trades + length s.rejected

  abbrev pub is_open : PaperTrade W → Bool
  is_open t = str_eq t.exit_reason "open"

  -- `t.symbol == symbol and t.exit_reason == "open"`
  abbrev pub is_open_for : String → PaperTrade W → Bool
  is_open_for symbol t = str_eq t.symbol symbol && is_open t

  -- `next((t for t in reversed(session.trades) if ...), None)`
  unfoldable pub find_open : String → List (PaperTrade W) → Option (PaperTrade W)
  find_open symbol [] = none
  find_open symbol (t ∷ ts) =
      let later = find_open symbol ts in
      elim later [ some u ↦ some u | none ↦ if is_open_for symbol t then some t else none ]

  -- The assignments to the fields of the trade that `find_open` returns.
  unfoldable pub update_open :
      String → (PaperTrade W → PaperTrade W) → List (PaperTrade W) → List (PaperTrade W)
  unfolding find_open
  update_open symbol g [] = []
  update_open symbol g (t ∷ ts) =
      let later = update_open symbol g ts in
      elim (find_open symbol ts) [
        | some u ↦ t ∷ later
        | none ↦ (if is_open_for symbol t then g t else t) ∷ ts
      ]
