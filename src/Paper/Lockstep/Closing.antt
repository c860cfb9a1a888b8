-- ===== src/Paper/Lockstep/Closing.antt =====
-- Funding and exits keep the mirrors in lock-step.
use crypto_bot_quant.Base.{
  Bool, true, false, String, Option, none, some, List, [], ◌∷◌, ◌≡◌, refl, sym, ap, ◌∙◌, subst,
  arith, All, All-map, All-zip, Bool-cases, Option-cases, inl, inr, str_eq, eq_iff,
}
use crypto_bot_quant.Base.Int.{ℤ, pos}
use crypto_bot_quant.Base.Result.{Result, ok, raised}
use crypto_bot_quant.Base.Dict.{Dict, lookup, contains, get_or, lookup-erase}
use crypto_bot_quant.Base.Float.{Float, gt, nought}
use crypto_bot_quant.Exchange.Metadata.{MetadataConfig}
use crypto_bot_quant.Risk.Portfolio.{Position}
use crypto_bot_quant.Paper.Session.{PaperSession, find_open}
use crypto_bot_quant.Paper.Engine.{PaperTradingEngine, drop_mirrors, roll_loss_windows}
use crypto_bot_quant.Paper.Funding.{
  FundingSource, FundingEvent, settle, accrual_of, put_accrual, charge_position, charge_positions,
  charge_open_funding,
}
use crypto_bot_quant.Paper.Exits.{PaperVenue, Trading, Bar, exit_decision, ratchet}
use crypto_bot_quant.Paper.Booking.{
  close_open, close_standalone, book_paper_exit, simulate_position, simulate_positions,
  simulate_paper_exits, book_exchange_exit,
}
use crypto_bot_quant.Paper.Lockstep.{
  IsUnique, IsLockstep, mirrors, drop_mirrors-Lockstep, peak-Lockstep, register_realized-mirrors,
  roll_loss_windows-mirrors, put_accrual-Lockstep,
}

-- Every key of a list of items is a key of a dict.
abbrev IsCovered : {A B : Type 0} → Dict A → Dict B → Type 0
IsCovered ps d = All (λ x. contains x.0 d ≡ true) ps

self-IsCovered : {A : Type 0} (d : Dict A) → IsCovered d d
unfolding lookup
self-IsCovered [] = tt
self-IsCovered ((k, v) ∷ d) = (
  ground (arith, eq_iff k k),
  All-map (λ x. contains x.0 d ≡ true) (λ x. contains x.0 ((k, v) ∷ d) ≡ true) d
      (λ x h. ground (arith, h)) (self-IsCovered d),
)

-- Items that do not have a key.
others :
    {A : Type 0} (k : String) (ps : Dict A)
    → contains k ps ≡ false
    → All (λ x. str_eq x.0 k ≡ false) ps
unfolding lookup
others k [] h = tt
others k ((j, v) ∷ ps) h =
    (ground (arith, h, eq_iff j k, eq_iff k j), others k ps (ground (arith, h)))

module _ {W S : Type 0} ⦃f : Float W⦄ (mult : W) where
  charge_positions-Lockstep :
      (source : FundingSource W) (now_ts : ℤ) (ps : Dict (Position W)) (e : PaperTradingEngine W S)
      → IsCovered ps e.open_positions
      → IsLockstep (mirrors e)
      → IsLockstep (mirrors (charge_positions mult source now_ts ps e))
  unfolding charge_positions charge_position
  charge_positions-Lockstep source now_ts [] e c h = h
  charge_positions-Lockstep source now_ts ((k, p) ∷ ps) e c h =
      go (λ e1 c1 h1. charge_positions-Lockstep source now_ts ps e1 c1 h1) (source k)
    where
      go :
          ((e1 : PaperTradingEngine W S)
            → IsCovered ps e1.open_positions
            → IsLockstep (mirrors e1)
            → IsLockstep (mirrors (charge_positions mult source now_ts ps e1)))
          → (r : Result (List (FundingEvent W)))
          → IsLockstep (
              mirrors (
                charge_positions mult source now_ts ps
                  (elim r [ raised x ↦ e | ok events ↦ charge_position mult now_ts k p events e ])))
      go rest (raised x) = rest e c.1 h
      go rest (ok events) =
          let y = settle mult p now_ts events (accrual_of mult k e) in
          let (kept, same) = put_accrual-Lockstep mult k y e c.0 h in
          rest (put_accrual mult k y e) (subst (IsCovered ps) (sym same) c.1) kept

  charge_open_funding-Lockstep :
      (source : Option (FundingSource W)) (now_ts : ℤ) (e : PaperTradingEngine W S)
      → IsLockstep (mirrors e)
      → IsLockstep (mirrors (charge_open_funding mult source now_ts e))
  unfolding charge_open_funding
  charge_open_funding-Lockstep none now_ts e h = h
  charge_open_funding-Lockstep (some feed) now_ts e h =
      charge_positions-Lockstep feed now_ts e.open_positions e (self-IsCovered e.open_positions) h

module _ {W S : Type 0} ⦃f : Float W⦄ (meta : MetadataConfig W) (venue : PaperVenue W S) where
  -- A close drops the mirrors of its symbol, or does nothing.
  book_paper_exit-mirrors :
      (w : Bool) (id k : String) (x : W) (reason : String) (now : ℤ) (e : PaperTradingEngine W S)
      (s : PaperSession W) (p : Position W)
      → lookup k e.open_positions ≡ some p
      → mirrors (book_paper_exit meta venue w id k x reason now (e, s)).0
        ≡ mirrors (drop_mirrors k e)
  unfolding book_paper_exit close_open close_standalone
  book_paper_exit-mirrors w id k x reason now e s p h = elim (Option-cases (find_open k s.trades)) [
    | inl g ↦ rw (h, g, book_paper_exit) (register_realized-mirrors w k _ _ _)
    | inr (t, g) ↦ rw (h, g, book_paper_exit) (register_realized-mirrors w k _ _ _)
  ]

  pub book_exchange_exit-Lockstep :
      (w : Bool) (k : String) (x fee : W) (now : ℤ) (reason : String) (e : PaperTradingEngine W S)
      (s : PaperSession W)
      → IsLockstep (mirrors e)
      → IsLockstep (mirrors (book_exchange_exit w k x fee now reason (e, s)).1.0)
  unfolding book_exchange_exit
  book_exchange_exit-Lockstep w k x fee now reason e s h =
      let rolled = subst IsLockstep (sym (roll_loss_windows-mirrors now e)) h in
      let dropped = drop_mirrors-Lockstep k (roll_loss_windows now e) rolled in
      elim (Option-cases (find_open k s.trades)) [
        | inl g ↦ rw (g, book_exchange_exit) dropped
        | inr (t, g) ↦
            rw (g, book_exchange_exit)
              (subst IsLockstep (sym (register_realized-mirrors w k _ _ _)) dropped)
      ]

  -- The keys of the open positions other than one are as they were.
  abbrev IsApart : String → PaperTradingEngine W S → PaperTradingEngine W S → Type 0
  IsApart k e e' =
      (j : String) → str_eq j k ≡ false → contains j e'.open_positions ≡ contains j e.open_positions

  book_paper_exit-Lockstep :
      (w : Bool) (id k : String) (x : W) (reason : String) (now : ℤ) (e : PaperTradingEngine W S)
      (s : PaperSession W)
      → IsLockstep (mirrors e)
      → let e' = (book_paper_exit meta venue w id k x reason now (e, s)).0 in
        IsLockstep (mirrors e') × IsApart k e e'
  unfolding book_paper_exit drop_mirrors
  book_paper_exit-Lockstep w id k x reason now e s h =
      elim (Option-cases (lookup k e.open_positions)) [
        | inl g ↦ rw (g, book_paper_exit) (h, λ j n. refl)
        | inr (p, g) ↦
            let same = book_paper_exit-mirrors w id k x reason now e s p g in
            (
              subst IsLockstep (sym same) (drop_mirrors-Lockstep k e h),
              λ j n.
                  ap (λ m. contains j m.held) same
                  ∙ ground (arith, lookup-erase k j e.open_positions, n),
            )
      ]

  simulate_position-Lockstep :
      (bar : Bar W) (k : String) (p : Position W) (e : PaperTradingEngine W S) (s : PaperSession W)
      → contains k e.open_positions ≡ true
      → IsLockstep (mirrors e)
      → let e' = (simulate_position meta venue bar k p (e, s)).1.0 in
        IsLockstep (mirrors e') × IsApart k e e'
  unfolding simulate_position
  simulate_position-Lockstep bar k p e s c h = elim (Option-cases (bar.price_of k)) [
    | inl g ↦ rw (g, simulate_position) (h, λ j n. refl)
    | inr (price, g) ↦
        let levels =
          get_or k (record { stop = nought; tp = nought; hold_bars = pos 0; entry_ts = pos 0 })
            e.exit_levels in
        let trail = get_or k nought e.trail_dist in
        let peak = get_or k p.entry_price e.peak in
        let hl = bar.hl_of k in
        elim (Option-cases (exit_decision bar p levels trail peak price hl)) [
          | inl d ↦ elim (Bool-cases (gt trail nought)) [
            | inl b ↦
                rw (g, d, b, simulate_position)
                  (peak-Lockstep k (ratchet p peak price hl) e c h, λ j n. refl)
            | inr b ↦ rw (g, d, b, simulate_position) (h, λ j n. refl)
          ]
          | inr ((reason, x), d) ↦
              rw (g, d, simulate_position)
                (book_paper_exit-Lockstep (bar.wrote k) (bar.fresh_id k) k x reason bar.now_ts e s
                  h)
        ]
  ]

  simulate_positions-Lockstep :
      (bar : Bar W) (ps : Dict (Position W)) (st : Trading W S)
      → IsCovered ps st.0.open_positions
      → IsUnique ps
      → IsLockstep (mirrors st.0)
      → IsLockstep (mirrors (simulate_positions meta venue bar ps st).1.0)
  unfolding simulate_positions
  simulate_positions-Lockstep bar [] st c u h = h
  simulate_positions-Lockstep bar ((k, p) ∷ ps) st c u h =
      let (kept, apart) = simulate_position-Lockstep bar k p st.0 st.1 c.0 h in
      let st1 = (simulate_position meta venue bar k p st).1 in
      simulate_positions-Lockstep bar ps st1
        (All-zip (λ x. contains x.0 st.0.open_positions ≡ true) (λ x. str_eq x.0 k ≡ false)
          (λ x. contains x.0 st1.0.open_positions ≡ true) ps (λ x q n. apart x.0 n ∙ q) c.1
          (others k ps u.0))
        u.1 kept

  pub simulate_paper_exits-Lockstep :
      (source : Option (FundingSource W)) (mult : W) (bar : Bar W) (charge : Bool)
      (st : Trading W S)
      → IsLockstep (mirrors st.0)
      → IsLockstep (mirrors (simulate_paper_exits meta venue source mult bar charge st).1.0)
  unfolding simulate_paper_exits
  simulate_paper_exits-Lockstep source mult bar true (e, s) h =
      let rolled = subst IsLockstep (sym (roll_loss_windows-mirrors bar.now_ts e)) h in
      let e1 = charge_open_funding mult source bar.now_ts (roll_loss_windows bar.now_ts e) in
      let kept =
        charge_open_funding-Lockstep mult source bar.now_ts (roll_loss_windows bar.now_ts e)
          rolled in
      simulate_positions-Lockstep bar e1.open_positions (e1, s) (self-IsCovered e1.open_positions)
        kept.unique kept
  simulate_paper_exits-Lockstep source mult bar false (e, s) h =
      simulate_positions-Lockstep bar e.open_positions (e, s) (self-IsCovered e.open_positions)
        h.unique h
