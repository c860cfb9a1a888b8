-- ===== src/Execution/Reconciliation.antt =====
-- src/execution/reconciliation.py: foreign orders and positions, at startup and at every tick. The
-- alerts that are sent come back with the result; the texts of both are left out.
pub mod Halt
use crypto_bot_quant.Base.{
  Bool, true, false, not, String, Option, none, some, List, [], ◌∷◌, ◌&&◌, ◌||◌, elem, sorted,
  is_empty, is_some, if◌then◌else◌,
}
use crypto_bot_quant.Base.Dict.{Dict, lookup, insert}
use crypto_bot_quant.Execution.Ownership.{OwnershipPolicy, is_own}
use crypto_bot_quant.Execution.Order.{Order}
use crypto_bot_quant.Execution.Venue.{VenuePosition, SimulatedVenue}

pub record ReconResult : Type 0 where
  pub reconciled : Bool
  pub halt_required : Bool
  pub unknown_orders : List String
  pub unknown_positions : List String

pub record StartupReconResult : Type 0 where
  pub reconciled : Bool
  pub halt_required : Bool
  pub owned_orders : List String
  pub owned_positions : List String
  pub foreign_orders : List String
  pub foreign_positions : List String

-- The critical alert, with the items that it lists.
pub data Alert : Type 0 where
  unknown_detected foreign_on_exchange : List String → List String → Alert

-- `key for key, value in d.items() if p(key, value)`
unfoldable pub keys_where {ℓ} : {V : Type ℓ} → (String → V → Bool) → Dict V → List String
keys_where p [] = []
keys_where p ((k, v) ∷ d) = let rest = keys_where p d in if p k v then k ∷ rest else rest

abbrev pub in_scope : Option (List String) → String → Bool
in_scope none s = true
in_scope (some scope) s = elem s scope

-- `for k in ids: mirror[k] = exchange[k]`; every id is a key of the exchange's book.
unfoldable pub adopt_all {ℓ} : {V : Type ℓ} → List String → Dict V → Dict V → Dict V
adopt_all [] exchange mirror = mirror
adopt_all (k ∷ ids) exchange mirror =
    adopt_all ids exchange (elim (lookup k exchange) [ none ↦ mirror | some v ↦ insert k v mirror ])

module _ {W : Type 0} where
  abbrev pub is_unknown_order : OwnershipPolicy → List String → String → Order W → Bool
  is_unknown_order p known oid o = not (is_own p (some o.client_id)) || not (elem oid known)

  abbrev pub is_unknown_position : List String → String → VenuePosition W → Bool
  is_unknown_position known sym pos = not pos.owned || not (elem sym known)

  -- `Reconciler.reconcile`; a set that is not given is empty.
  unfoldable pub reconcile :
      OwnershipPolicy
      → Dict (Order W)
      → Dict (VenuePosition W)
      → List String
      → List String
      → ReconResult × List Alert
  reconcile p orders positions known_orders known_positions =
      let unknown_orders = sorted (keys_where (is_unknown_order p known_orders) orders) in
      let unknown_positions = sorted (keys_where (is_unknown_position known_positions) positions) in
      if not (is_empty unknown_orders) || not (is_empty unknown_positions)
      then (
        record {
          reconciled = false;
          halt_required = true;
          unknown_orders = unknown_orders;
          unknown_positions = unknown_positions;
        },
        unknown_detected unknown_orders unknown_positions ∷ [],
      )
      else (
        record {
          reconciled = true;
          halt_required = false;
          unknown_orders = [];
          unknown_positions = [];
        },
        [],
      )

  -- `_is_position_protection`
  unfoldable pub is_position_protection : Order W → Bool
  is_position_protection o = o.is_reduce_only || is_some o.stop_price

  abbrev pub is_owned_order : OwnershipPolicy → Option (List String) → String → Order W → Bool
  is_owned_order p scope oid o =
      in_scope scope o.symbol && (is_own p (some o.client_id) || is_position_protection o)

  abbrev pub owned_order_ids : OwnershipPolicy → Option (List String) → Dict (Order W) → List String
  owned_order_ids p scope orders = sorted (keys_where (is_owned_order p scope) orders)

  abbrev pub foreign_order_ids :
      OwnershipPolicy → Option (List String) → Dict (Order W) → List String
  foreign_order_ids p scope orders = sorted (
      keys_where
        (λ oid o. in_scope scope o.symbol && not (elem oid (owned_order_ids p scope orders)))
        orders)

  abbrev pub owned_symbols : Option (List String) → Dict (VenuePosition W) → List String
  owned_symbols none positions = sorted (keys_where (λ _ pos. pos.owned) positions)
  owned_symbols (some scope) positions = sorted (keys_where (λ sym _. elem sym scope) positions)

  abbrev pub foreign_symbols : Option (List String) → Dict (VenuePosition W) → List String
  foreign_symbols none positions =
      sorted (keys_where (λ sym _. not (elem sym (owned_symbols none positions))) positions)
  foreign_symbols (some scope) positions = []

  -- `reconcile_startup` for a venue with an exchange book: the orders and positions that it fetches,
  -- and the venue's mirror, which comes back as it is left.
  unfoldable pub reconcile_startup :
      OwnershipPolicy
      → Dict (Order W)
      → Dict (VenuePosition W)
      → Bool
      → Option (List String)
      → SimulatedVenue W
      → StartupReconResult × List Alert × SimulatedVenue W
  reconcile_startup p orders positions adopt scope venue =
      let owned_orders = owned_order_ids p scope orders in
      let foreign_orders = foreign_order_ids p scope orders in
      let owned_positions = owned_symbols scope positions in
      let foreign_positions = foreign_symbols scope positions in
      let halt = not (is_empty foreign_orders) || not (is_empty foreign_positions) in
      (
        record {
          reconciled = not halt;
          halt_required = halt;
          owned_orders = owned_orders;
          owned_positions = owned_positions;
          foreign_orders = foreign_orders;
          foreign_positions = foreign_positions;
        },
        if halt then foreign_on_exchange foreign_orders foreign_positions ∷ [] else [],
        if adopt
            then record venue {
              open_orders = adopt_all owned_orders orders venue.open_orders;
              positions = adopt_all owned_positions positions venue.positions;
            }
            else venue,
      )
