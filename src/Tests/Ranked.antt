-- ===== src/Tests/Ranked.antt =====
-- The ranking at concrete inputs.
use mathlib.Core.List.{Perm}
use crypto_bot_quant.Base.{List, [], ◌∷◌, ◌≡◌, refl, map, select, length, All}
use crypto_bot_quant.Base.Result.{ok, raised}
use crypto_bot_quant.Base.Dict.{lookup}
use crypto_bot_quant.Base.Nano.{Nano, nano_float, Nano-IsOrdered, dec}
use crypto_bot_quant.Exchange.Metadata.{find_spec}
use crypto_bot_quant.Ranking.Candidate.{Candidate}
use crypto_bot_quant.Ranking.Setup.{
  RankingConfig, default_context, clamp01, taker_fee, round_trip_cost_frac,
  expected_value_after_costs, ev_ratio, headroom, reward_risk, state_blockers, hard_blockers,
  components, score, approved,
}
use crypto_bot_quant.Ranking.Engine.{
  RankingResult, Scored, evaluated, insert_by, sort_by, ranked_from, known_keys, extractors, key_lt,
  triage, scores, ranking, rank,
}
use crypto_bot_quant.Ranking.Engine.Sorting.{IsRanked}
use crypto_bot_quant.Ranking.Engine.Selection.{
  IsEligible, scored_of, rank_selects-IsEligible, rank_orders_approved, evaluated_counts_each,
}
use crypto_bot_quant.Tests.Samples.{long_btc}
use crypto_bot_quant.Tests.Books.{reviewed_metadata}

abbrev pub ranking_config : RankingConfig Nano
ranking_config = record {
  ranking_version = "rank_0001";
  components =
      ("regime_alignment", dec 20 0)
      ∷ ("signal_strength", dec 20 0)
      ∷ ("cross_signal_confirmation", dec 15 0)
      ∷ ("expected_move_after_costs", dec 15 0)
      ∷ ("execution_quality", dec 15 0)
      ∷ ("risk_reward_quality", dec 10 0)
      ∷ ("session_context", dec 5 0)
      ∷ [];
  threshold = dec 55 0;
  rr_target = dec 2 0;
  max_spread_bps = dec 25 0;
  max_slippage_frac = dec 1 2;
  rank_by = "setup_quality_score" ∷ "expected_value_after_costs" ∷ [];
}

-- A weaker signal, one without an edge, and a stronger one.
abbrev cycle : List (Candidate Nano)
cycle =
    record long_btc { signal_strength = dec 5 1 }
    ∷ record long_btc { expected_edge_frac = dec 0 0 }
    ∷ long_btc
    ∷ []

abbrev no_result : RankingResult Nano
no_result = record { selected = []; rejected = []; ranking_version = "" }

abbrev ranked : RankingResult Nano
ranked = elim (rank ranking_config reviewed_metadata [] default_context [] cycle) [
  | ok r ↦ r
  | raised x ↦ no_result
]

rank_run : rank ranking_config reviewed_metadata [] default_context [] cycle ≡ ok ranked
unfolding rank scores score components hard_blockers state_blockers clamp01 taker_fee
    round_trip_cost_frac expected_value_after_costs ev_ratio headroom reward_risk find_spec lookup
rank_run = refl

two_selected : (length ranked.selected ≡ 2) × (length ranked.rejected ≡ 2)
unfolding rank scores score components hard_blockers state_blockers clamp01 taker_fee
    round_trip_cost_frac expected_value_after_costs ev_ratio headroom reward_risk find_spec lookup
    ranking triage sort_by insert_by extractors known_keys key_lt ranked_from
two_selected = (refl, refl)

rank_selects-IsEligible_example :
    All
      (λ x. IsEligible ranking_config reviewed_metadata [] default_context [] (scored_of x))
      ranked.selected
rank_selects-IsEligible_example =
    rank_selects-IsEligible ranking_config reviewed_metadata [] default_context [] cycle ranked
      rank_run

rank_orders_approved_example :
    (all : List (Scored Nano)) × (map (λ x. x.0) all ≡ cycle)
    × (scores ranking_config reviewed_metadata [] default_context [] cycle ≡ ok all)
    × Perm (map scored_of ranked.selected) (select (λ x. approved x.1) all)
    × IsRanked (key_lt (extractors ranking_config)) (map scored_of ranked.selected)
rank_orders_approved_example =
    rank_orders_approved ranking_config reviewed_metadata [] default_context [] cycle ranked
      Nano-IsOrdered rank_run

evaluated_counts_each_example : evaluated ranked ≡ length cycle
evaluated_counts_each_example =
    evaluated_counts_each ranking_config reviewed_metadata [] default_context [] cycle ranked
      rank_run
