-- ===== src/Tests/Coverage.antt =====
-- The gaps of a series at concrete inputs.
use Prim.Native.Nat.{◌%◌}
use crypto_bot_quant.Base.{ℕ, ◌<◌, ◌≤◌, true, none, [], ◌∷◌, ◌≡◌, refl, arith, ◌↔◌}
use crypto_bot_quant.Base.Result.{ok}
use crypto_bot_quant.Data.Gaps.{
  GapReport, is_covered, is_in, find_gaps, expected_grid, range, snap, grid_start, ranges, sort_ts,
}
use crypto_bot_quant.Data.Gaps.Ranges.{expand_all, ranges_roundtrip}
use crypto_bot_quant.Data.Gaps.Grid.{is_listed, find_gaps_covered_iff}

-- Two timestamps of a window of five are stored.
abbrev gappy : GapReport
gappy = record { expected = 5; present = 2; missing_ts = 2 ∷ 3 ∷ 5 ∷ []; interval_ms = 1 }

ranges_roundtrip_example : expand_all gappy.interval_ms (ranges gappy) ≡ sort_ts gappy.missing_ts
ranges_roundtrip_example = ranges_roundtrip gappy (omega arith)

gaps_run : find_gaps 1 none (1 ∷ 4 ∷ []) 0 6 ≡ ok gappy
unfolding find_gaps expected_grid range snap grid_start
gaps_run = refl

find_gaps_covered_iff_example : (is_covered gappy ≡ true) ↔ (
    (t : ℕ)
    → t % 1 ≡ 0
    → 0 ≤ t
    → is_listed none (1 ∷ 4 ∷ []) t ≡ true
    → t < 6
    → is_in t (1 ∷ 4 ∷ []) ≡ true)
find_gaps_covered_iff_example =
    find_gaps_covered_iff 1 none (1 ∷ 4 ∷ []) 0 6 gappy (omega arith) gaps_run
