-- ===== src/Execution/Reconciliation/Halt.antt =====
-- When reconciliation halts new entries.
use crypto_bot_quant.Base.{
  Bool, true, false, not, String, Option, none, some, List, [], ◌∷◌, ◌&&◌, ◌||◌, ◌≡◌, ◌↔◌, refl,
  sym, ◌∙◌, arith, All-map, All-zip, elem, sorted, is_empty, is_empty-sorted, elem-sorted, All,
  str_eq, eq_iff, length, if◌then◌else◌,
}
use crypto_bot_quant.Base.Dict.{Dict}
use crypto_bot_quant.Execution.Ownership.{OwnershipPolicy, is_own}
use crypto_bot_quant.Execution.Order.{Order}
use crypto_bot_quant.Execution.Venue.{VenuePosition, SimulatedVenue}
use crypto_bot_quant.Execution.Reconciliation.{
  keys_where, is_unknown_order, is_unknown_position, reconcile, reconcile_startup, in_scope,
  is_position_protection, foreign_order_ids, foreign_symbols,
}

keys_where-empty {ℓ} :
    {V : Type ℓ} (p : String → V → Bool) (d : Dict V)
    → (is_empty (keys_where p d) ≡ true) ↔ All (λ e. p e.0 e.1 ≡ false) d
unfolding keys_where
keys_where-empty p [] = (λ h. tt, λ h. refl)
keys_where-empty p ((k, v) ∷ d) = (
  λ h. ground (arith, (keys_where-empty p d).0),
  λ h. ground (arith, (keys_where-empty p d).1 h.1),
)

-- Each key stands once, as in every Python dict.
abbrev pub UniqueKeys {ℓ} : {V : Type ℓ} → Dict V → Type ℓ
UniqueKeys [] = Unit
UniqueKeys ((k, _) ∷ d) = All (λ e. str_eq e.0 k ≡ false) d × UniqueKeys d

keys_where_complete {ℓ} :
    {V : Type ℓ} (p : String → V → Bool) (d : Dict V)
    → All (λ e. p e.0 e.1 ≡ true → elem e.0 (keys_where p d) ≡ true) d
unfolding keys_where
keys_where_complete p [] = tt
keys_where_complete p ((k, v) ∷ d) = (
  λ h. ground (arith, eq_iff k k),
  All-map (λ e. p e.0 e.1 ≡ true → elem e.0 (keys_where p d) ≡ true) _ d
      (λ e g h. ground (arith, g h)) (keys_where_complete p d),
)

keys_where-absent {ℓ} :
    {V : Type ℓ} (p : String → V → Bool) (k : String) (d : Dict V)
    → All (λ e. str_eq e.0 k ≡ false) d
    → elem k (keys_where p d) ≡ false
unfolding keys_where
keys_where-absent p k [] h = refl
keys_where-absent p k ((j, v) ∷ d) h =
    ground (arith, keys_where-absent p k d h.1, eq_iff k j, eq_iff j k)

keys_where_sound {ℓ} :
    {V : Type ℓ} (p : String → V → Bool) (d : Dict V)
    → UniqueKeys d
    → All (λ e. elem e.0 (keys_where p d) ≡ true → p e.0 e.1 ≡ true) d
unfolding keys_where
keys_where_sound p [] u = tt
keys_where_sound p ((k, v) ∷ d) u = (
  λ h. ground (arith, keys_where-absent p k d u.0),
  All-zip (λ e. str_eq e.0 k ≡ false) (λ e. elem e.0 (keys_where p d) ≡ true → p e.0 e.1 ≡ true) _ d
      (λ e ne g h. g (ground arith)) u.0 (keys_where_sound p d u.1),
)

-- The items that a test selects, and those of the scope that are not among them: none is left over
-- exactly if every item of the scope passes the test.
leftover-empty {ℓ} :
    (V : Type ℓ) (scope test : String → V → Bool) (d : Dict V)
    → UniqueKeys d
    → (is_empty (
          sorted (
            keys_where
              (λ k v.
                scope k v && not (elem k (sorted (keys_where (λ k v. scope k v && test k v) d))))
              d))
        ≡ true)
      ↔ All (λ e. scope e.0 e.1 ≡ true → test e.0 e.1 ≡ true) d
leftover-empty V scope test d u = (
  λ h.
      All-zip (λ e. (scope e.0 e.1 && not (elem e.0 (sorted chosen))) ≡ false)
        (λ e. elem e.0 chosen ≡ true → both e.0 e.1 ≡ true) _ d
        (λ e g k s. ground (arith, g, k, elem-sorted e.0 chosen))
        ((keys_where-empty left d).0 (sym (is_empty-sorted (keys_where left d)) ∙ h))
        (keys_where_sound both d u),
  λ h.
      is_empty-sorted (keys_where left d)
      ∙ (keys_where-empty left d).1 (
          All-zip (λ e. scope e.0 e.1 ≡ true → test e.0 e.1 ≡ true)
            (λ e. both e.0 e.1 ≡ true → elem e.0 chosen ≡ true) _ d
            (λ e g k. ground (arith, g, k, elem-sorted e.0 chosen)) h (keys_where_complete both d)),
)
  where
    both : String → V → Bool
    both k v = scope k v && test k v

    chosen : List String
    chosen = keys_where both d

    left : String → V → Bool
    left k v = scope k v && not (elem k (sorted chosen))

module _ {W : Type 0} where
  -- The order carries the bot's prefix and is in its book; the position is owned and in its book.
  abbrev pub is_known_order : OwnershipPolicy → List String → String × Order W → Bool
  is_known_order p known (oid, o) = is_own p (some o.client_id) && elem oid known

  abbrev pub is_known_position : List String → String × VenuePosition W → Bool
  is_known_position known (sym, pos) = pos.owned && elem sym known

  orders_known :
      (p : OwnershipPolicy) (known : List String) (d : Dict (Order W))
      → (is_empty (sorted (keys_where (is_unknown_order p known) d)) ≡ true)
        ↔ All (λ e. is_known_order p known e ≡ true) d
  orders_known p known d = (
    λ h.
        All-map (λ e. is_unknown_order p known e.0 e.1 ≡ false) _ d (λ e g. ground (arith, g))
          ((keys_where-empty (is_unknown_order p known) d).0
            (sym (is_empty-sorted (keys_where (is_unknown_order p known) d)) ∙ h)),
    λ h.
        is_empty-sorted (keys_where (is_unknown_order p known) d)
        ∙ (keys_where-empty (is_unknown_order p known) d).1
            (All-map (λ e. is_known_order p known e ≡ true) _ d (λ e g. ground (arith, g)) h),
  )

  positions_known :
      (known : List String) (d : Dict (VenuePosition W))
      → (is_empty (sorted (keys_where (is_unknown_position known) d)) ≡ true)
        ↔ All (λ e. is_known_position known e ≡ true) d
  positions_known known d = (
    λ h.
        All-map (λ e. is_unknown_position known e.0 e.1 ≡ false) _ d (λ e g. ground (arith, g))
          ((keys_where-empty (is_unknown_position known) d).0
            (sym (is_empty-sorted (keys_where (is_unknown_position known) d)) ∙ h)),
    λ h.
        is_empty-sorted (keys_where (is_unknown_position known) d)
        ∙ (keys_where-empty (is_unknown_position known) d).1
            (All-map (λ e. is_known_position known e ≡ true) _ d (λ e g. ground (arith, g)) h),
  )

  reconcile_by_emptiness :
      (p : OwnershipPolicy) (orders : Dict (Order W)) (positions : Dict (VenuePosition W))
      (ko kp : List String)
      → let (r, alerts) = reconcile p orders positions ko kp in
        (r.reconciled ≡ (
          is_empty (sorted (keys_where (is_unknown_order p ko) orders))
          && is_empty (sorted (keys_where (is_unknown_position kp) positions))))
        × (r.halt_required ≡ not r.reconciled)
        × (length alerts ≡ (if r.reconciled then 0 else 1))
  unfolding reconcile
  reconcile_by_emptiness p orders positions ko kp = ground arith

  -- Reconciliation passes exactly if every order carries the bot's prefix and is in its book and
  -- every position is owned and in its book; otherwise it halts new entries and sends one alert.
  pub reconcile_passes_iff :
      (p : OwnershipPolicy) (orders : Dict (Order W)) (positions : Dict (VenuePosition W))
      (known_orders known_positions : List String)
      → let (r, alerts) = reconcile p orders positions known_orders known_positions in
        ((r.reconciled ≡ true) ↔ (
          All (λ e. is_known_order p known_orders e ≡ true) orders
          × All (λ e. is_known_position known_positions e ≡ true) positions))
        × (r.halt_required ≡ not r.reconciled)
        × (length alerts ≡ (if r.reconciled then 0 else 1))
  reconcile_passes_iff p orders positions ko kp =
      let (passes, halts, alerts) = reconcile_by_emptiness p orders positions ko kp in
      (
        (
          λ h. (
            (orders_known p ko orders).0 (ground (arith, passes, h)),
            (positions_known kp positions).0 (ground (arith, passes, h)),
          ),
          λ h. ground (
            arith,
            passes,
            (orders_known p ko orders).1 h.0,
            (positions_known kp positions).1 h.1,
          ),
        ),
        halts,
        alerts,
      )

  orders_owned :
      (p : OwnershipPolicy) (scope : Option (List String)) (orders : Dict (Order W))
      → UniqueKeys orders
      → (is_empty (foreign_order_ids p scope orders) ≡ true)
        ↔ All
            (λ e.
              in_scope scope e.1.symbol ≡ true
              → (is_own p (some e.1.client_id) || is_position_protection e.1) ≡ true)
            orders
  orders_owned p scope orders u =
      leftover-empty (Order W) (λ _ o. in_scope scope o.symbol)
        (λ _ o. is_own p (some o.client_id) || is_position_protection o) orders u

  symbols_owned :
      (scope : Option (List String)) (positions : Dict (VenuePosition W))
      → UniqueKeys positions
      → (is_empty (foreign_symbols scope positions) ≡ true)
        ↔ (scope ≡ none → All (λ e. e.1.owned ≡ true) positions)
  symbols_owned (some scope) positions u = (λ h e. absurd (some-none e), λ h. refl)
    where
      some-none : {A : Type 0} {a : A} → some a ≡ none → ⊥
      some-none e = ground (arith, e)
  symbols_owned none positions u =
      let ps = leftover-empty (VenuePosition W) (λ _ _. true) (λ _ pos. pos.owned) positions u in
      (
        λ h _. All-map _ (λ e. e.1.owned ≡ true) positions (λ e g. g refl) (ps.0 h),
        λ h. ps.1 (All-map (λ e. e.1.owned ≡ true) _ positions (λ e g _. g) (h refl)),
      )

  startup_by_emptiness :
      (p : OwnershipPolicy) (orders : Dict (Order W)) (positions : Dict (VenuePosition W))
      (adopt : Bool) (scope : Option (List String)) (venue : SimulatedVenue W)
      → let (r, _, _) = reconcile_startup p orders positions adopt scope venue in
        (r.halt_required ≡ not r.reconciled)
        × (r.reconciled ≡ (
            is_empty (foreign_order_ids p scope orders)
            && is_empty (foreign_symbols scope positions)))
  unfolding reconcile_startup
  startup_by_emptiness p orders positions adopt scope venue =
      go (is_empty (foreign_order_ids p scope orders)) (is_empty (foreign_symbols scope positions))
    where
      go :
          (a b : Bool)
          → ((not a || not b) ≡ not (not (not a || not b))) × (not (not a || not b) ≡ (a && b))
      go true true = (refl, refl)
      go true false = (refl, refl)
      go false b = (refl, refl)

  -- At startup, entries are halted unless the books are reconciled, and they are reconciled exactly
  -- if every open order in the session's scope is the bot's own or only protects a position, and,
  -- where the account is not partitioned, every position is owned.
  pub reconcile_startup_passes_iff :
      (p : OwnershipPolicy) (orders : Dict (Order W)) (positions : Dict (VenuePosition W))
      (adopt : Bool) (scope : Option (List String)) (venue : SimulatedVenue W)
      → UniqueKeys orders
      → UniqueKeys positions
      → let (r, _, _) = reconcile_startup p orders positions adopt scope venue in
        (r.halt_required ≡ not r.reconciled)
        × ((r.reconciled ≡ true) ↔ (
            All
              (λ e.
                in_scope scope e.1.symbol ≡ true
                → (is_own p (some e.1.client_id) || is_position_protection e.1) ≡ true)
              orders
            × (scope ≡ none → All (λ e. e.1.owned ≡ true) positions)))
  reconcile_startup_passes_iff p orders positions adopt scope venue uo up =
      let (halts, passes) = startup_by_emptiness p orders positions adopt scope venue in
      let os = orders_owned p scope orders uo in
      let ps = symbols_owned scope positions up in
      (
        halts,
        (
          λ h. (os.0 (ground (arith, passes, h)), ps.0 (ground (arith, passes, h))),
          λ h. ground (arith, passes, os.1 h.0, ps.1 h.1),
        ),
      )
