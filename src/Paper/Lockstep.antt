-- ===== src/Paper/Lockstep.antt =====
-- The mirrors of the open positions stay in lock-step, as src/paper/engine.py asks of them.
pub mod Closing
pub mod Running
use crypto_bot_quant.Base.{
  Bool, true, false, String, Option, none, some, List, [], ◌∷◌, ◌≡◌, refl, sym, ap, ◌∙◌, subst,
  arith, Bool-cases, Option-cases, inl, inr, str_eq, eq_iff, is_some,
}
use crypto_bot_quant.Base.Int.{ℤ}
use crypto_bot_quant.Base.Result.{Result, ok, raised, Result-cases}
use crypto_bot_quant.Base.Dict.{Dict, lookup, insert, erase, contains, lookup-insert, lookup-erase}
use crypto_bot_quant.Base.Float.{Float}
use crypto_bot_quant.Exchange.Metadata.{MetadataConfig}
use crypto_bot_quant.Ranking.Candidate.{Candidate}
use crypto_bot_quant.Risk.Portfolio.{Position}
use crypto_bot_quant.Risk.Breakers.{BreakerReason}
use crypto_bot_quant.Risk.Manager.Defs.{RiskDecision}
use crypto_bot_quant.Paper.Session.{PaperTrade, PaperSession, is_open, find_open}
use crypto_bot_quant.Paper.Engine.{
  PaperTradingEngine, ExitLevels, drop_mirrors, persist_state, register_realized, roll_loss_windows,
  calendar_windows, roll_anchors,
}
use crypto_bot_quant.Paper.Funding.{
  FundingSource, FundingEvent, Accrual, settle, accrual_of, put_accrual, charge_position,
  charge_positions, charge_open_funding,
}
use crypto_bot_quant.Paper.Exits.{PaperVenue, Trading}
use crypto_bot_quant.Paper.Input.{PaperCandidateInput, Pipeline, Moment}
use crypto_bot_quant.Paper.Entry.{open_mirrors, mirror}

-- Two dicts with the same keys.
abbrev pub IsKeyedAs : {A B : Type 0} → Dict A → Dict B → Type 0
IsKeyedAs d d' = (k : String) → contains k d ≡ contains k d'

pub keyed-insert :
    {A B : Type 0} (j : String) (v : A) (w : B) (d : Dict A) (d' : Dict B)
    → IsKeyedAs d d'
    → IsKeyedAs (insert j v d) (insert j w d')
keyed-insert j v w d d' h k = ground (arith, lookup-insert j k v d, lookup-insert j k w d', h k)

keyed-erase :
    {A B : Type 0} (j : String) (d : Dict A) (d' : Dict B)
    → IsKeyedAs d d'
    → IsKeyedAs (erase j d) (erase j d')
keyed-erase j d d' h k = ground (arith, lookup-erase j k d, lookup-erase j k d', h k)

-- A new value under a key that is there.
keyed-put :
    {A B : Type 0} (j : String) (v : A) (d : Dict A) (d' : Dict B)
    → contains j d' ≡ true
    → IsKeyedAs d d'
    → IsKeyedAs (insert j v d) d'
keyed-put j v d d' c h k = ground (arith, lookup-insert j k v d, h k, eq_iff k j, c)

-- A dict has each key once.
abbrev pub IsUnique : {A : Type 0} → Dict A → Type 0
IsUnique [] = Unit
IsUnique ((k, _) ∷ d) = (contains k d ≡ false) × IsUnique d

pub insert-IsUnique :
    {A : Type 0} (j : String) (v : A) (d : Dict A) → IsUnique d → IsUnique (insert j v d)
unfolding insert lookup
insert-IsUnique j v [] h = (refl, tt)
insert-IsUnique j v ((k, w) ∷ d) h =
    ground
      (arith, eq_iff j k, eq_iff k j, lookup-insert j k v d, insert-IsUnique j v d h.1, h.0, h.1)

erase-IsUnique : {A : Type 0} (j : String) (d : Dict A) → IsUnique d → IsUnique (erase j d)
unfolding erase
erase-IsUnique j [] h = tt
erase-IsUnique j ((k, w) ∷ d) h = ground (arith, lookup-erase j k d, erase-IsUnique j d h.1, h.0)

-- The open positions with their six mirrors.
pub record Mirrors (W : Type 0) : Type 0 where
  pub held : Dict (Position W)
  pub meta : Dict (String × ℤ)
  pub levels : Dict (ExitLevels W)
  pub funding : Dict W
  pub watermark : Dict ℤ
  pub trail : Dict W
  pub peak : Dict W

pub record IsLockstep {W : Type 0} (m : Mirrors W) : Type 0 where
  pub unique : IsUnique m.held
  pub meta : IsKeyedAs m.meta m.held
  pub levels : IsKeyedAs m.levels m.held
  pub funding : IsKeyedAs m.funding m.held
  pub watermark : IsKeyedAs m.watermark m.held
  pub trail : IsKeyedAs m.trail m.held
  pub peak : IsKeyedAs m.peak m.held

module _ {W S : Type 0} where
  abbrev pub mirrors : PaperTradingEngine W S → Mirrors W
  mirrors e = record {
    held = e.open_positions;
    meta = e.position_meta;
    levels = e.exit_levels;
    funding = e.position_funding;
    watermark = e.funding_watermark;
    trail = e.trail_dist;
    peak = e.peak;
  }

  pub drop_mirrors-Lockstep :
      (k : String) (e : PaperTradingEngine W S)
      → IsLockstep (mirrors e)
      → IsLockstep (mirrors (drop_mirrors k e))
  unfolding drop_mirrors
  drop_mirrors-Lockstep k e h = record {
    unique = erase-IsUnique k e.open_positions h.unique;
    meta = keyed-erase k e.position_meta e.open_positions h.meta;
    levels = keyed-erase k e.exit_levels e.open_positions h.levels;
    funding = keyed-erase k e.position_funding e.open_positions h.funding;
    watermark = keyed-erase k e.funding_watermark e.open_positions h.watermark;
    trail = keyed-erase k e.trail_dist e.open_positions h.trail;
    peak = keyed-erase k e.peak e.open_positions h.peak;
  }

  -- The peak of a position that is held.
  pub peak-Lockstep :
      (k : String) (x : W) (e : PaperTradingEngine W S)
      → contains k e.open_positions ≡ true
      → IsLockstep (mirrors e)
      → IsLockstep (mirrors (record e { peak = insert k x e.peak }))
  peak-Lockstep k x e c h = record {
    unique = h.unique;
    meta = h.meta;
    levels = h.levels;
    funding = h.funding;
    watermark = h.watermark;
    trail = h.trail;
    peak = keyed-put k x e.peak e.open_positions c h.peak;
  }

module _ {W S : Type 0} ⦃f : Float W⦄ where
  persist_state-mirrors :
      (w : Bool) (e : PaperTradingEngine W S) → mirrors (persist_state w e) ≡ mirrors e
  unfolding persist_state
  persist_state-mirrors w e = ground arith

  pub register_realized-mirrors :
      (w : Bool) (k : String) (x y : W) (e : PaperTradingEngine W S)
      → mirrors (register_realized w k x y e) ≡ mirrors e
  unfolding register_realized
  register_realized-mirrors w k x y e = persist_state-mirrors w _

  pub roll_loss_windows-mirrors :
      (ts : ℤ) (e : PaperTradingEngine W S) → mirrors (roll_loss_windows ts e) ≡ mirrors e
  unfolding roll_loss_windows
  roll_loss_windows-mirrors ts e = ground arith

  pub put_accrual-Lockstep :
      (mult : W) (k : String) (y : Accrual W) (e : PaperTradingEngine W S)
      → contains k e.open_positions ≡ true
      → IsLockstep (mirrors e)
      → IsLockstep (mirrors (put_accrual mult k y e))
        × ((put_accrual mult k y e).open_positions ≡ e.open_positions)
  put_accrual-Lockstep mult k (none, last) e c h = (
    record {
      unique = h.unique;
      meta = h.meta;
      levels = h.levels;
      funding = h.funding;
      watermark = keyed-put k last e.funding_watermark e.open_positions c h.watermark;
      trail = h.trail;
      peak = h.peak;
    },
    refl,
  )
  put_accrual-Lockstep mult k (some a, last) e c h = (
    record {
      unique = h.unique;
      meta = h.meta;
      levels = h.levels;
      funding = keyed-put k a e.position_funding e.open_positions c h.funding;
      watermark = keyed-put k last e.funding_watermark e.open_positions c h.watermark;
      trail = h.trail;
      peak = h.peak;
    },
    refl,
  )
