-- ===== src/Data/Gaps.antt =====
-- src/data/schema.py and src/data/gaps.py: the regular grid of timestamps, the gaps of a stored series
-- over it, and the ranges that cover them. Timestamps are milliseconds since the epoch, as naturals.
-- The gaps of funding settlements, which have no fixed grid, are left out.
pub mod Ranges
pub mod Boundaries
pub mod Grid
use Prim.Native.Nat.{◌+◌, ◌-◌, ◌*◌, ◌/◌, ◌%◌}
use crypto_bot_quant.Base.{
  ℕ, zero, suc, Bool, true, false, not, String, Option, none, some, List, [], ◌∷◌, length, select,
  any, ltb, leb, ◌==◌, if◌then◌else◌, is_empty,
}
use crypto_bot_quant.Base.Result.{Result, ok, raised, value_error, ◌>>=◌}
use crypto_bot_quant.Base.Dict.{Dict, lookup}

-- `list(range(start, end, step))` with this much fuel.
unfoldable pub range : ℕ → ℕ → ℕ → ℕ → List ℕ
range zero start end step = []
range (suc fuel) start end step =
    let rest = range fuel (start + step) end step in if ltb start end then start ∷ rest else []

-- The start of the grid: the boundary at or after the start.
unfoldable pub snap : ℕ → ℕ → ℕ
snap start interval = if start % interval == 0 then start else (start / interval + 1) * interval

unfoldable pub expected_grid : ℕ → ℕ → ℕ → Result (List ℕ)
expected_grid start end interval =
    if interval == 0
    then raised value_error
    else let first = snap start interval in ok (range (end - first) first end interval)

-- `timeframe_ms`, on the table of the timeframes
unfoldable pub timeframe_ms : Dict ℕ → String → Result ℕ
timeframe_ms table timeframe = elim (lookup timeframe table) [
  | none ↦ raised value_error
  | some ms ↦ ok ms
]

-- `ts in present`
abbrev pub is_in : ℕ → List ℕ → Bool
is_in t ts = any (λ x. t == x) ts

pub record GapReport : Type 0 where
  pub expected : ℕ
  pub present : ℕ
  pub missing_ts : List ℕ
  pub interval_ms : ℕ

abbrev pub is_covered : GapReport → Bool
is_covered r = is_empty r.missing_ts

-- `sorted(ts)`, by insertion
unfoldable pub insert_ts : ℕ → List ℕ → List ℕ
insert_ts t [] = t ∷ []
insert_ts t (x ∷ xs) = let rest = insert_ts t xs in if leb t x then t ∷ x ∷ xs else x ∷ rest

unfoldable pub sort_ts : List ℕ → List ℕ
sort_ts [] = []
sort_ts (t ∷ ts) = insert_ts t (sort_ts ts)

-- The loop of `ranges`, in a run that began at `run_start` and has come to `prev`.
unfoldable pub ranges_from : ℕ → ℕ → ℕ → List ℕ → List (ℕ × ℕ)
ranges_from interval run_start prev [] = (run_start, prev + interval) ∷ []
ranges_from interval run_start prev (ts ∷ rest) =
    let going_on = ranges_from interval run_start ts rest in
    let restarted = ranges_from interval ts ts rest in
    if ts == prev + interval then going_on else (run_start, prev + interval) ∷ restarted

abbrev pub ranges_of : ℕ → List ℕ → List (ℕ × ℕ)
ranges_of interval [] = []
ranges_of interval (ts ∷ rest) = ranges_from interval ts ts rest

-- `ranges`
unfoldable pub ranges : GapReport → List (ℕ × ℕ)
ranges r = ranges_of r.interval_ms (sort_ts r.missing_ts)

-- `max(a, b)` and `min(ts)`
abbrev pub later : ℕ → ℕ → ℕ
later a b = if ltb a b then b else a

abbrev pub earliest : ℕ → List ℕ → ℕ
earliest best [] = best
earliest best (t ∷ ts) = earliest (if ltb t best then t else best) ts

abbrev pub first_of : List ℕ → Option ℕ
first_of [] = none
first_of (t ∷ ts) = some (earliest t ts)

-- `_grid_start`, by the listing watermark and the first stored timestamp
unfoldable pub grid_start : ℕ → Option ℕ → Option ℕ → ℕ
grid_start start (some watermark) first_stored = later start watermark
grid_start start none none = start
grid_start start none (some first_stored) = later start first_stored

-- `find_gaps` of a series that is not funding: its interval, its watermark and the stored timestamps.
unfoldable pub find_gaps : ℕ → Option ℕ → List ℕ → ℕ → ℕ → Result GapReport
find_gaps interval watermark present start end =
    expected_grid (grid_start start watermark (first_of present)) end interval >>= λ grid.
    ok record {
      expected = length grid;
      present = length present;
      missing_ts = select (λ t. not (is_in t present)) grid;
      interval_ms = interval;
    }
