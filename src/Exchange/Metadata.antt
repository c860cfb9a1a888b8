-- ===== src/Exchange/Metadata.antt =====
-- src/exchange/metadata.py: the contract specs by symbol. A spec's `fields` is the mapping that the
-- YAML file holds.
use crypto_bot_quant.Base.{Bool, String, Option, none, some, List}
use crypto_bot_quant.Base.Result.{Result}
use crypto_bot_quant.Base.Dict.{Dict, lookup}
use crypto_bot_quant.Base.Float.{Float, nought}
use crypto_bot_quant.Base.Value.{Value, float, float_or_zero}

pub record VerifiedSpec (W : Type 0) : Type 0 where
  pub symbol : String
  pub fields : Dict (Value W)

pub record MetadataConfig (W : Type 0) : Type 0 where
  pub exchange_id : String
  pub metadata_version : String
  pub verified_against : String
  pub verified_at : String
  pub supported_order_types : List String
  pub specs : Dict (VerifiedSpec W)
  pub verified : Bool

-- `MetadataConfig.spec`
unfoldable pub find_spec : {W : Type 0} → MetadataConfig W → String → Option (VerifiedSpec W)
find_spec m symbol = lookup symbol m.specs

module _ {W : Type 0} ⦃f : Float W⦄ where
  -- `float(fields.get(key, 0.0) or 0.0)`
  unfoldable pub number_field : Dict (Value W) → String → Result W
  number_field fields key = elim (lookup key fields) [
    | none ↦ float_or_zero (float nought)
    | some v ↦ float_or_zero v
  ]

  -- `float(fields.get("qty_step", fields.get("lot_size", 0.0)) or 0.0)`
  unfoldable pub qty_step_field : Dict (Value W) → Result W
  unfolding number_field
  qty_step_field fields = elim (lookup "qty_step" fields) [
    | none ↦ number_field fields "lot_size"
    | some v ↦ float_or_zero v
  ]
