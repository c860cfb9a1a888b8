-- ===== src/Execution/Order/Defs.antt =====
-- Orders and the entry bracket.
use crypto_bot_quant.Base.{Bool, false, String, Option, none, some, List, [], ◌∷◌, ◌++◌}
use crypto_bot_quant.Base.Int.{ℤ}
use crypto_bot_quant.Base.Dict.{Dict}

pub data Side : Type 0 where
  buy sell : Side

pub data OrderType : Type 0 where
  market limit post_only reduce_only stop_market stop_limit take_profit_market : OrderType
  trailing_stop : OrderType

pub data Role : Type 0 where
  entry stop take_profit trailing : Role

pub record Order (W : Type 0) : Type 0 where
  pub client_id : String
  pub symbol : String
  pub side : Side
  pub qty : W
  pub order_type : OrderType
  pub role : Role
  pub price : Option W
  pub stop_price : Option W
  pub trail_offset : Option W
  pub is_reduce_only : Bool
  pub tags : Dict String

pub record OrderPlan (W : Type 0) : Type 0 where
  pub symbol : String
  pub side : ℤ
  pub qty : W
  pub entry : Order W
  pub stop : Option (Order W)
  pub take_profit : Option (Order W)
  pub trailing : Option (Order W)
  pub entry_style : String

module _ {W : Type 0} where
  abbrev pub optional : Option (Order W) → List (Order W)
  optional none = []
  optional (some o) = o ∷ []

  -- `OrderPlan.legs`
  abbrev pub legs : OrderPlan W → List (Order W)
  legs p = p.entry ∷ (optional p.stop ++ (optional p.take_profit ++ optional p.trailing))

  -- `OrderPlan.has_exchange_side_stop`
  abbrev pub has_exchange_side_stop : OrderPlan W → Bool
  has_exchange_side_stop p = elim p.stop [ none ↦ false | some o ↦ o.is_reduce_only ]
