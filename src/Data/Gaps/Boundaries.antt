-- ===== src/Data/Gaps/Boundaries.antt =====
-- The boundaries of a grid: the multiples of its interval, and how its steps reach them.
use Prim.Native.Nat.{◌+◌, ◌-◌, ◌*◌, ◌/◌, ◌%◌}
use native.Mathlib.Nat.{mul-mod_left, mul-le-mul_right, add-mod_right}
use crypto_bot_quant.Base.{
  ℕ, zero, suc, ◌≤◌, ◌≡◌, ◌≢◌, ap, ◌∙◌, arith, ltb, ◌==◌, Bool-cases, inl, inr,
}
use crypto_bot_quant.Data.Gaps.{snap}
use crypto_bot_quant.Data.Gaps.Ranges.{last_step}

-- The first boundary is one, and no earlier one is at or after the start.
pub snap-mod : (start interval : ℕ) → 1 ≤ interval → snap start interval % interval ≡ 0
unfolding snap
snap-mod start interval p = elim (Bool-cases (start % interval == 0)) [
  | inl e ↦ rw e (ground (arith, e))
  | inr e ↦ rw e (mul-mod_left (start / interval + 1) interval)
]

pub snap-le :
    (start interval q : ℕ)
    → 1 ≤ interval
    → start ≤ q * interval
    → snap start interval ≤ q * interval
unfolding snap
snap-le start interval q p h = elim (Bool-cases (start % interval == 0)) [
  | inl e ↦ rw e h
  | inr e ↦ rw e (mul-le-mul_right interval (beyond (ground (arith, e))))
]
  where
    beyond : start % interval ≢ 0 → start / interval + 1 ≤ q
    beyond n = elim (Bool-cases (ltb (start / interval) q)) [
      | inl l ↦ ground (arith, l)
      | inr l ↦
          let far : q ≤ start / interval = ground (arith, l) in
          absurd (omega (arith, n, h, mul-le-mul_right interval far))
    ]

pub snap-ge : (start interval : ℕ) → 1 ≤ interval → start ≤ snap start interval
unfolding snap
snap-ge start interval p = ground arith

pub last_step-mod : (interval s k : ℕ) → s % interval ≡ 0 → last_step interval s k % interval ≡ 0
last_step-mod interval s zero h = h
last_step-mod interval s (suc k) h =
    last_step-mod interval (s + interval) k (add-mod_right s interval ∙ h)

-- Every boundary from the first one on is a step of the grid.
step-to : (interval first d : ℕ) → first + d * interval ≡ last_step interval first d
step-to interval first zero = omega arith
step-to interval first (suc d) = omega (arith, step-to interval (first + interval) d)

multiples : (i m n a b : ℕ) → 1 ≤ i → a ≡ m * i → b ≡ n * i → a ≤ b → b ≡ a + (n - m) * i
multiples i m n a b p ea eb l = elim (Bool-cases (ltb n m)) [
  | inl e ↦
      let more : n + 1 ≤ m = ground (arith, e) in
      absurd (omega (arith, p, ea, eb, l, mul-le-mul_right i more))
  | inr e ↦
      let fits : m ≤ n = ground (arith, e) in
      let whole : m + (n - m) ≡ n = omega (arith, fits) in
      let spread : m * i + (n - m) * i ≡ n * i = omega (arith, ap (λ (x : ℕ). x * i) whole) in
      omega (arith, spread, ea, eb)
]

pub step_at :
    (interval first t : ℕ)
    → 1 ≤ interval
    → first % interval ≡ 0
    → t % interval ≡ 0
    → first ≤ t
    → (k : ℕ) × (t ≡ last_step interval first k)
step_at interval first t p a b l = (
  t / interval - first / interval,
  multiples interval (first / interval) (t / interval) first t p (omega (arith, a, p))
        (omega (arith, b, p)) l
      ∙ step-to interval first (t / interval - first / interval),
)
