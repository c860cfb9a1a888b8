-- ===== src/Data/Gaps/Ranges.antt =====
-- The ranges of a report stand for exactly its missing timestamps.
use Prim.Native.Nat.{◌+◌, ◌-◌}
use crypto_bot_quant.Base.{
  append_assoc, ℕ, zero, suc, ◌≤◌, true, List, [], ◌∷◌, ◌++◌, ◌≡◌, refl, sym, ap, ◌∙◌, arith, ◌==◌,
  Bool-cases, inl, inr,
}
use crypto_bot_quant.Data.Gaps.{range, GapReport, sort_ts, ranges_from, ranges_of, ranges}

-- The timestamps of a range: those that a fetch of it asks for.
abbrev pub expand : ℕ → ℕ × ℕ → List ℕ
expand interval (start, end) = range (end - start) start end interval

abbrev pub expand_all : ℕ → List (ℕ × ℕ) → List ℕ
expand_all interval [] = []
expand_all interval (r ∷ rs) = expand interval r ++ expand_all interval rs

-- The k timestamps after a first one, and the last of them.
abbrev steps : ℕ → ℕ → ℕ → List ℕ
steps interval s zero = s ∷ []
steps interval s (suc k) = s ∷ steps interval (s + interval) k

abbrev pub last_step : ℕ → ℕ → ℕ → ℕ
last_step interval s zero = s
last_step interval s (suc k) = last_step interval (s + interval) k

pub last_step-ge : (interval s k : ℕ) → s ≤ last_step interval s k
last_step-ge interval s zero = omega arith
last_step-ge interval s (suc k) = omega (arith, last_step-ge interval (s + interval) k)

last_step-suc :
    (interval s k : ℕ) → last_step interval s (suc k) ≡ last_step interval s k + interval
last_step-suc interval s zero = refl
last_step-suc interval s (suc k) = last_step-suc interval (s + interval) k

steps-suc :
    (interval s k : ℕ)
    → steps interval s (suc k) ≡ steps interval s k ++ ((last_step interval s k + interval) ∷ [])
steps-suc interval s zero = refl
steps-suc interval s (suc k) = ap (λ l. s ∷ l) (steps-suc interval (s + interval) k)

-- A range that ends past its last step, with enough fuel.
range-steps :
    (interval s k fuel e : ℕ)
    → 1 ≤ interval
    → e ≡ last_step interval s k + interval
    → e ≤ s + fuel
    → range fuel s e interval ≡ steps interval s k
unfolding range
range-steps interval s k zero e p h g = absurd (omega (arith, last_step-ge interval s k, p, h, g))
range-steps interval s zero (suc zero) e p h g = ground arith
range-steps interval s zero (suc (suc fuel)) e p h g = ground arith
range-steps interval s (suc k) (suc fuel) e p h g =
    let rest = range-steps interval (s + interval) k fuel e p h (omega (arith, p, g)) in
    let below = last_step-ge interval (s + interval) k in ground (arith, rest, below, h)

run-expands :
    (interval s k : ℕ)
    → 1 ≤ interval
    → expand interval (s, last_step interval s k + interval) ≡ steps interval s k
run-expands interval s k p =
    let e = last_step interval s k + interval in
    range-steps interval s k (e - s) e p refl (omega (arith, last_step-ge interval s k))

-- A run of k steps, and what follows it.
ranges_from-expands :
    (interval s k : ℕ) (rest : List ℕ)
    → 1 ≤ interval
    → expand_all interval (ranges_from interval s (last_step interval s k) rest)
      ≡ steps interval s k ++ rest
unfolding ranges_from
ranges_from-expands interval s k [] p = ap (λ l. l ++ []) (run-expands interval s k p)
ranges_from-expands interval s k (ts ∷ rest) p =
    let next = last_step interval s k + interval in
    elim (Bool-cases (ts == next)) [
      | inl e ↦
          let same = equal ts next e ∙ sym (last_step-suc interval s k) in
          rw e (
            ap (λ t. expand_all interval (ranges_from interval s t rest)) same
            ∙ ranges_from-expands interval s (suc k) rest p
            ∙ ap (λ l. l ++ rest) (steps-suc interval s k)
            ∙ append_assoc (steps interval s k) (next ∷ []) rest
            ∙ ap (λ t. steps interval s k ++ (t ∷ rest)) (sym (equal ts next e)))
      | inr e ↦ rw e (
          ap (λ l. l ++ expand_all interval (ranges_from interval ts ts rest))
            (run-expands interval s k p)
          ∙ ap (λ l. steps interval s k ++ l) (ranges_from-expands interval ts zero rest p))
    ]
  where
    equal : (a b : ℕ) → (a == b) ≡ true → a ≡ b
    equal a b h = ground (arith, h)

-- The ranges of a report, read back as the timestamps that a fetch of them asks for, are exactly the
-- missing timestamps in order: none is lost, none is added, however they fall into runs. The interval
-- is positive.
pub ranges_roundtrip :
    (r : GapReport) → 1 ≤ r.interval_ms → expand_all r.interval_ms (ranges r) ≡ sort_ts r.missing_ts
unfolding ranges
ranges_roundtrip r p = go (sort_ts r.missing_ts)
  where
    go : (ts : List ℕ) → expand_all r.interval_ms (ranges_of r.interval_ms ts) ≡ ts
    go [] = refl
    go (t ∷ ts) = ranges_from-expands r.interval_ms t zero ts p
