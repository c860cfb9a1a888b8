-- ===== src/Data/Gaps/Grid.antt =====
-- When the report of a series says that it is covered.
use Prim.Native.Nat.{◌+◌, ◌-◌, ◌*◌, ◌/◌, ◌%◌}
use crypto_bot_quant.Base.{
  ℕ, zero, suc, ◌≤◌, ◌<◌, true, false, not, Option, none, some, Bool, any, leb, ◌&&◌, ◌||◌, List,
  [], ◌∷◌, ◌≡◌, refl, sym, ap, ◌∙◌, subst, arith, ◌↔◌, ltb, ◌==◌, if◌then◌else◌, select, is_empty,
  All, All-map, Bool-cases, inl, inr,
}
use crypto_bot_quant.Base.Result.{ok, raised, value_error, >>=-eq-ok, ok_inj}
use crypto_bot_quant.Data.Gaps.{
  range, snap, expected_grid, is_in, GapReport, is_covered, find_gaps, grid_start, first_of,
  earliest,
}
use crypto_bot_quant.Data.Gaps.Boundaries.{snap-mod, snap-le, snap-ge, last_step-mod, step_at}
use crypto_bot_quant.Data.Gaps.Ranges.{last_step, last_step-ge}

-- A step of the grid before its end.
abbrev IsStep : ℕ → ℕ → ℕ → ℕ → Type 0
IsStep step start end t = (k : ℕ) × (t ≡ last_step step start k) × (t < end)

range-IsStep : (fuel start end step : ℕ) → All (IsStep step start end) (range fuel start end step)
unfolding range
range-IsStep zero start end step = tt
range-IsStep (suc fuel) start end step = elim (Bool-cases (ltb start end)) [
  | inr e ↦ rw e tt
  | inl e ↦ rw e (
    (zero, refl, ground (arith, e)),
    All-map (IsStep step (start + step) end) (IsStep step start end)
        (range fuel (start + step) end step) (λ t s. (suc s.0, s.1, s.2))
        (range-IsStep fuel (start + step) end step),
  )
]

-- Every step before the end is in the range, with enough fuel.
range_complete :
    (fuel start end step k : ℕ)
    → 1 ≤ step
    → end ≤ start + fuel
    → last_step step start k < end
    → is_in (last_step step start k) (range fuel start end step) ≡ true
unfolding range
range_complete zero start end step k p h l = absurd (omega (arith, h, l, last_step-ge step start k))
range_complete (suc fuel) start end step zero p h l = ground (arith, l)
range_complete (suc fuel) start end step (suc k) p h l =
    let rest = range_complete fuel (start + step) end step k p (omega (arith, p, h)) l in
    let below = last_step-ge step (start + step) k in ground (arith, rest, below, l)

stored_each :
    (present ts : List ℕ)
    → is_empty (select (λ t. not (is_in t present)) ts) ≡ true
    → All (λ t. is_in t present ≡ true) ts
stored_each present [] h = tt
stored_each present (t ∷ ts) h = (ground arith, stored_each present ts (ground arith))

none-missing :
    (present ts : List ℕ)
    → All (λ t. is_in t present ≡ true) ts
    → is_empty (select (λ t. not (is_in t present)) ts) ≡ true
none-missing present [] h = refl
none-missing present (t ∷ ts) h = let rest = none-missing present ts h.1 in ground (arith, h.0)

is_in-All :
    (t : ℕ) (present ts : List ℕ)
    → All (λ t. is_in t present ≡ true) ts
    → is_in t ts ≡ true
    → is_in t present ≡ true
is_in-All t present [] h k = cc
is_in-All t present (x ∷ ts) h k = elim (Bool-cases (t == x)) [
  | inl e ↦ subst (λ y. is_in y present ≡ true) (equal x t (ground (arith, e))) h.0
  | inr e ↦ is_in-All t present ts h.1 (ground arith)
]
  where
    equal : (a b : ℕ) → (a == b) ≡ true → a ≡ b
    equal a b h = ground (arith, h)

-- The grid that is searched.
grid-of :
    (start end interval : ℕ) (grid : List ℕ)
    → 1 ≤ interval
    → expected_grid start end interval ≡ ok grid
    → grid ≡ range (end - snap start interval) (snap start interval) end interval
unfolding expected_grid
grid-of start end interval grid p h =
    let first = snap start interval in
    let positive : (interval == 0) ≡ false = ground (arith, p) in
    ok_inj (
      sym h
      ∙ ap (λ b. if b then raised value_error else ok (range (end - first) first end interval))
          positive)

-- A timestamp at or after every start of the listed part of a series: its watermark, or, where none
-- is known, some stored timestamp, if there is any.
abbrev pub is_listed : Option ℕ → List ℕ → ℕ → Bool
is_listed (some watermark) present t = leb watermark t
is_listed none [] t = true
is_listed none (x ∷ present) t = any (λ s. leb s t) (x ∷ present)

earliest-leb :
    (best : ℕ) (ts : List ℕ) (t : ℕ)
    → leb (earliest best ts) t ≡ (leb best t || any (λ s. leb s t) ts)
earliest-leb best [] t = ground arith
earliest-leb best (x ∷ ts) t = elim (Bool-cases (ltb x best)) [
  | inl e ↦ rw e (earliest-leb x ts t ∙ ground (arith, e))
  | inr e ↦ rw e (earliest-leb best ts t ∙ ground (arith, e))
]

grid_start-leb :
    (start : ℕ) (watermark : Option ℕ) (present : List ℕ) (t : ℕ)
    → leb (grid_start start watermark (first_of present)) t
      ≡ (leb start t && is_listed watermark present t)
unfolding grid_start
grid_start-leb start (some watermark) present t = ground arith
grid_start-leb start none [] t = ground arith
grid_start-leb start none (x ∷ present) t = ground (arith, earliest-leb x present t)

find_gaps_covered-steps :
    (interval : ℕ) (watermark : Option ℕ) (present : List ℕ) (start end : ℕ) (r : GapReport)
    → 1 ≤ interval
    → find_gaps interval watermark present start end ≡ ok r
    → let first = snap (grid_start start watermark (first_of present)) interval in
      (is_covered r ≡ true) ↔ (
        (k : ℕ)
        → last_step interval first k < end
        → is_in (last_step interval first k) present ≡ true)
unfolding find_gaps
find_gaps_covered-steps interval watermark present start end r p h =
    let s = grid_start start watermark (first_of present) in
    let first = snap s interval in
    let (grid, e1, e2) = >>=-eq-ok (expected_grid s end interval) _ h in
    let searched = grid-of s end interval grid p e1 in
    let missing = ap (λ x. x.missing_ts) (ok_inj e2) in
    let whole = range (end - first) first end interval in
    (
      λ covered k l.
          is_in-All (last_step interval first k) present whole
            (subst (λ g. All (λ t. is_in t present ≡ true) g) searched
              (stored_each present grid (ap is_empty missing ∙ covered)))
            (range_complete (end - first) first end interval k p (omega arith) l),
      λ stored.
          ap is_empty (sym missing)
          ∙ none-missing present grid (
              subst (λ g. All (λ t. is_in t present ≡ true) g) (sym searched)
                (All-map (IsStep interval first end) (λ t. is_in t present ≡ true) whole
                  (λ t s.
                    subst (λ y. is_in y present ≡ true) (sym s.1)
                      (stored s.0 (subst (λ y. y < end) s.1 s.2)))
                  (range-IsStep (end - first) first end interval))),
    )

-- A report says that a series is covered exactly if every timestamp that the exchange has listed in the
-- window is stored: each multiple of the interval that is not before the start of the window nor before
-- the watermark of the series or, where it has none, before every stored timestamp (if any is stored),
-- and that is before the end of the window. The interval is positive.
pub find_gaps_covered_iff :
    (interval : ℕ) (watermark : Option ℕ) (present : List ℕ) (start end : ℕ) (r : GapReport)
    → 1 ≤ interval
    → find_gaps interval watermark present start end ≡ ok r
    → (is_covered r ≡ true) ↔ (
        (t : ℕ)
        → t % interval ≡ 0
        → start ≤ t
        → is_listed watermark present t ≡ true
        → t < end
        → is_in t present ≡ true)
find_gaps_covered_iff interval watermark present start end r p h =
    let s = grid_start start watermark (first_of present) in
    let first = snap s interval in
    let whole = snap-mod s interval p in
    let steps = find_gaps_covered-steps interval watermark present start end r p h in
    (
      λ covered t m from listed l.
          let begun : s ≤ t =
            ground (arith, grid_start-leb start watermark present t, from, listed) in
          let round : t ≡ t / interval * interval = omega (arith, m, p) in
          let reached : first ≤ t =
            omega
              (arith, round, snap-le s interval (t / interval) p (omega (arith, begun, round))) in
          let (k, e) = step_at interval first t p whole m reached in
          subst (λ x. is_in x present ≡ true) (sym e)
            (steps.0 covered k (subst (λ x. x < end) e l)),
      λ stored. steps.1 (λ k l.
          let t = last_step interval first k in
          let (from, listed) =
            begun t (omega (arith, snap-ge s interval p, last_step-ge interval first k)) in
          stored t (last_step-mod interval first k whole) from listed l),
    )
  where
    begun :
        (t : ℕ)
        → grid_start start watermark (first_of present) ≤ t
        → (start ≤ t) × (is_listed watermark present t ≡ true)
    begun t l = ground (arith, grid_start-leb start watermark present t, l)
