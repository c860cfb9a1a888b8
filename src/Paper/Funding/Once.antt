-- ===== src/Paper/Funding/Once.antt =====
-- No funding event is settled twice.
use crypto_bot_quant.Base.{
  true, false, none, some, List, [], ◌∷◌, ◌≡◌, refl, sym, ap, ◌∙◌, arith, All, All-map, String,
  Bool-cases, inl, inr, eq_iff,
}
use crypto_bot_quant.Base.Int.{ℤ, pos, ◌≤ℤ◌, ltb_ℤ, leb_ℤ}
use crypto_bot_quant.Base.Dict.{Dict, lookup, insert, get_or, lookup-insert}
use crypto_bot_quant.Base.Float.{Float}
use crypto_bot_quant.Risk.Portfolio.{Position}
use crypto_bot_quant.Paper.Engine.{PaperTradingEngine}
use crypto_bot_quant.Paper.Funding.{
  FundingEvent, Accrual, settle_event, settle, accrual_of, put_accrual, charge_position,
}

-- The events come in the order of their times.
abbrev pub IsSorted : {W : Type 0} → List (FundingEvent W) → Type 0
IsSorted [] = Unit
IsSorted (ev ∷ evs) = All (λ x. ev.ts ≤ℤ x.ts) evs × IsSorted evs

lookup-put : {V : Type 0} (k : String) (v : V) (d : Dict V) → lookup k (insert k v d) ≡ some v
lookup-put k v d = ground (arith, lookup-insert k k v d, eq_iff k k)

get_or-insert : {V : Type 0} (k : String) (u v : V) (d : Dict V) → get_or k u (insert k v d) ≡ v
get_or-insert k u v d = rw (lookup-put k v d, get_or) refl

insert_twice :
    {V : Type 0} (k : String) (v w : V) (d : Dict V) → insert k v (insert k w d) ≡ insert k v d
unfolding insert
insert_twice k v w [] = ground (arith, eq_iff k k)
insert_twice k v w ((j, u) ∷ d) = ground (arith, eq_iff k j, eq_iff k k, insert_twice k v w d)

module _ {W : Type 0} ⦃f : Float W⦄ (mult : W) (p : Position W) where
  settle-mono :
      (now : ℤ) (evs : List (FundingEvent W)) (x : Accrual W) → x.1 ≤ℤ (settle mult p now evs x).1
  unfolding settle settle_event
  settle-mono now [] x = omega arith
  settle-mono now (ev ∷ evs) x = ground (arith, settle-mono now evs (settle_event mult p now ev x))

  -- Events beyond the time are left for later.
  settle-future :
      (now : ℤ) (evs : List (FundingEvent W)) (x : Accrual W)
      → All (λ ev. ltb_ℤ now ev.ts ≡ true) evs
      → settle mult p now evs x ≡ x
  unfolding settle settle_event
  settle-future now [] x h = refl
  settle-future now (ev ∷ evs) x h = ground (arith, h.0, settle-future now evs x h.1)

  -- A settled event is passed over.
  settle_event-past :
      (now : ℤ) (ev : FundingEvent W) (x : Accrual W)
      → ev.ts ≤ℤ x.1
      → settle_event mult p now ev x ≡ x
  unfolding settle_event
  settle_event-past now ev x h = ground (arith, h)

  settle_event-sooner :
      (now1 now2 : ℤ) (ev : FundingEvent W) (x : Accrual W)
      → now1 ≤ℤ now2
      → ltb_ℤ x.1 ev.ts ≡ true
      → leb_ℤ ev.ts now1 ≡ true
      → (settle_event mult p now1 ev x ≡ settle_event mult p now2 ev x)
        × ((settle_event mult p now1 ev x).1 ≡ ev.ts)
  unfolding settle_event
  settle_event-sooner now1 now2 ev x h a b = ground (arith, h, a, b)

  settle_event-late :
      (now : ℤ) (ev : FundingEvent W) (x : Accrual W)
      → leb_ℤ ev.ts now ≡ false
      → settle_event mult p now ev x ≡ x
  unfolding settle_event
  settle_event-late now ev x h = ground (arith, h)

  -- Events that are sorted and are settled up to a time, and again up to a later one, are settled as
  -- they are by one pass at the later time.
  pub settle_twice :
      (now1 now2 : ℤ) (evs : List (FundingEvent W)) (x : Accrual W)
      → IsSorted evs
      → now1 ≤ℤ now2
      → settle mult p now2 evs (settle mult p now1 evs x) ≡ settle mult p now2 evs x
  unfolding settle
  settle_twice now1 now2 [] x s h = refl
  settle_twice now1 now2 (ev ∷ evs) x s h = elim (Bool-cases (ltb_ℤ x.1 ev.ts)) [
    | inr past ↦
        let before = settle_event-past now1 ev x (ground (arith, past)) in
        let after =
          settle_event-past now2 ev (settle mult p now1 evs x)
            (ground (arith, past, settle-mono now1 evs x)) in
        ap (λ y. settle mult p now2 evs (settle_event mult p now2 ev (settle mult p now1 evs y)))
          before
        ∙ ap (settle mult p now2 evs) after
        ∙ settle_twice now1 now2 evs x s.1 h
        ∙ ap (settle mult p now2 evs) (sym (settle_event-past now2 ev x (ground (arith, past))))
    | inl new ↦ elim (Bool-cases (leb_ℤ ev.ts now1)) [
      | inl due ↦
          let (same, last) = settle_event-sooner now1 now2 ev x h new due in
          let x1 = settle_event mult p now1 ev x in
          let after =
            settle_event-past now2 ev (settle mult p now1 evs x1)
              (ground (arith, last, settle-mono now1 evs x1)) in
          ap (settle mult p now2 evs) after
          ∙ settle_twice now1 now2 evs x1 s.1 h
          ∙ ap (settle mult p now2 evs) same
      | inr later ↦
          let before = settle_event-late now1 ev x later in
          let none_due = settle-future now1 evs x (
            All-map (λ y. ev.ts ≤ℤ y.ts) (λ y. ltb_ℤ now1 y.ts ≡ true) evs
              (λ y l. ground (arith, l, later)) s.0) in
          ap (λ y. settle mult p now2 evs (settle_event mult p now2 ev (settle mult p now1 evs y)))
            before
          ∙ ap (λ y. settle mult p now2 evs (settle_event mult p now2 ev y)) none_due
    ]
  ]

  settle-none :
      (now : ℤ) (evs : List (FundingEvent W)) (x : Accrual W)
      → (settle mult p now evs x).0 ≡ none
      → x.0 ≡ none
  unfolding settle settle_event
  settle-none now [] x h = h
  settle-none now (ev ∷ evs) x h =
      let before = settle-none now evs (settle_event mult p now ev x) h in ground (arith, before)

  module _ {S : Type 0} (symbol : String) where
    accrual-put :
        (y : Accrual W) (e : PaperTradingEngine W S)
        → (y.0 ≡ none → lookup symbol e.position_funding ≡ none)
        → accrual_of mult symbol (put_accrual mult symbol y e) ≡ y
    accrual-put (none, last) e h =
        rw (h refl) (ap (λ l. (none, l)) (get_or-insert symbol (pos 0) last e.funding_watermark))
    accrual-put (some a, last) e h =
        rw
          (
            lookup-put symbol a e.position_funding,
            get_or-insert symbol (pos 0) last e.funding_watermark,
          )
          refl

    put-put :
        (z y : Accrual W) (e : PaperTradingEngine W S)
        → (z.0 ≡ none → y.0 ≡ none)
        → put_accrual mult symbol z (put_accrual mult symbol y e) ≡ put_accrual mult symbol z e
    put-put (none, l) (none, k) e h = rw (insert_twice symbol l k e.funding_watermark) refl
    put-put (none, l) (some a, k) e h = let bad : some a ≡ none = h refl in cc
    put-put (some b, l) (none, k) e h = rw (insert_twice symbol l k e.funding_watermark) refl
    put-put (some b, l) (some a, k) e h =
        rw (insert_twice symbol l k e.funding_watermark, insert_twice symbol b a e.position_funding)
          refl

    -- What a position pays does not depend on how often it is charged: if its events are sorted, to
    -- charge it at one bar and again at a later one leaves the engine as to charge it at the later.
    pub charged_once :
        (now1 now2 : ℤ) (evs : List (FundingEvent W)) (e : PaperTradingEngine W S)
        → IsSorted evs
        → now1 ≤ℤ now2
        → charge_position mult now2 symbol p evs (charge_position mult now1 symbol p evs e)
          ≡ charge_position mult now2 symbol p evs e
    unfolding charge_position
    charged_once now1 now2 evs e s h =
        let x = accrual_of mult symbol e in
        let y = settle mult p now1 evs x in
        let twice = settle_twice now1 now2 evs x s h in
        ap (λ a. put_accrual mult symbol (settle mult p now2 evs a) (put_accrual mult symbol y e))
          (accrual-put y e (settle-none now1 evs x))
        ∙ put-put (settle mult p now2 evs y) y e (settle-none now2 evs y)
        ∙ ap (λ z. put_accrual mult symbol z e) twice
