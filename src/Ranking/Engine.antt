-- ===== src/Ranking/Engine.antt =====
-- src/ranking/engine.py: the ranking of a cycle's candidates. Python's sort is stable; here it is an
-- insertion that keeps the order of equals, which agrees with it wherever the keys are comparable,
-- that is, no score is NaN.
pub mod Sorting
pub mod Selection
use Prim.Native.Nat.{◌+◌, Ordering}
use Prim.Native.String as Text
use crypto_bot_quant.Base.{
  ℕ, suc, Bool, true, false, not, String, Option, none, some, List, [], ◌∷◌, ◌++◌, map, length,
  count_if, if◌then◌else◌, is_empty, str_eq,
}
use crypto_bot_quant.Base.Int.{ℤ}
use crypto_bot_quant.Base.Result.{Result, ok, ◌>>=◌}
use crypto_bot_quant.Base.Dict.{Dict, get_or}
use crypto_bot_quant.Base.Float.{Float, lt, eq}
use crypto_bot_quant.Exchange.Metadata.{MetadataConfig}
use crypto_bot_quant.Ranking.Candidate.{Candidate}
use crypto_bot_quant.Ranking.Setup.{
  RankingConfig, SetupContext, SetupScore, Blocker, passed_threshold, score,
}

pub data RejectReason (W : Type 0) : Type 0 where
  hard_blocker : List Blocker → RejectReason W
  below_threshold : W → W → RejectReason W
  outranked : ℕ → RejectReason W

pub record RankedCandidate (W : Type 0) : Type 0 where
  pub candidate : Candidate W
  pub score : SetupScore W
  pub rank : ℕ

pub record RejectedAlternative (W : Type 0) : Type 0 where
  pub symbol : String
  pub strategy : String
  pub side : ℤ
  pub reason : RejectReason W
  pub setup_quality_score : W

pub record RankingResult (W : Type 0) : Type 0 where
  pub selected : List (RankedCandidate W)
  pub rejected : List (RejectedAlternative W)
  pub ranking_version : String

-- A candidate with its score.
abbrev pub Scored : Type 0 → Type 0
Scored W = Candidate W × SetupScore W

-- `reason.startswith("outranked")`
abbrev pub is_outranked : {W : Type 0} → RejectReason W → Bool
is_outranked (outranked n) = true
is_outranked _ = false

abbrev pub winner : {W : Type 0} → RankingResult W → Option (RankedCandidate W)
winner r = elim r.selected [ [] ↦ none | x ∷ xs ↦ some x ]

-- The number of candidates that `attribution` reports.
unfoldable pub evaluated : {W : Type 0} → RankingResult W → ℕ
evaluated r = length r.selected + count_if (λ x. not (is_outranked x.reason)) r.rejected

abbrev pub rejected_as : {W : Type 0} → Scored W → RejectReason W → RejectedAlternative W
rejected_as (c, s) reason = record {
  symbol = c.symbol;
  strategy = c.strategy;
  side = c.side;
  reason = reason;
  setup_quality_score = s.total;
}

-- `sorted(xs)` by an order, stable.
unfoldable pub insert_by : {A : Type 0} → (A → A → Bool) → A → List A → List A
insert_by less x [] = x ∷ []
insert_by less x (y ∷ ys) =
    let rest = insert_by less x ys in if less y x then y ∷ rest else x ∷ (y ∷ ys)

unfoldable pub sort_by : {A : Type 0} → (A → A → Bool) → List A → List A
sort_by less [] = []
sort_by less (x ∷ xs) = insert_by less x (sort_by less xs)

-- `enumerate`, from a rank on
unfoldable pub ranked_from : {W : Type 0} → ℕ → List (Scored W) → List (RankedCandidate W)
ranked_from n [] = []
ranked_from n ((c, s) ∷ rest) =
    record { candidate = c; score = s; rank = n } ∷ ranked_from (suc n) rest

-- `selected[1:]` as rejected alternatives
abbrev pub losers : {W : Type 0} → List (RankedCandidate W) → List (RejectedAlternative W)
losers [] = []
losers (_ ∷ rest) = map (λ r. rejected_as (r.candidate, r.score) (outranked r.rank)) rest

-- `s < t` on texts
abbrev pub text_lt : String → String → Bool
text_lt s t = elim (Text.compare s t) [ Ordering.lt ↦ true | _ ↦ false ]

-- A key of `_RANK_KEYS`.
abbrev pub RankKey : Type 0 → Type 0
RankKey W = Scored W → W

module _ {W : Type 0} ⦃f : Float W⦄ where
  abbrev pub by_score : RankKey W
  by_score (c, s) = f.neg s.total

  abbrev pub by_expected_value : RankKey W
  by_expected_value (c, s) = f.neg s.expected_value_after_costs

  -- The keys that are known.
  unfoldable pub known_keys : List String → List (RankKey W)
  known_keys [] = []
  known_keys (k ∷ ks) =
      let rest = known_keys ks in
      if str_eq k "setup_quality_score"
      then by_score ∷ rest
      else if str_eq k "expected_value_after_costs"
      then by_expected_value ∷ rest
      else rest

  unfoldable pub extractors : RankingConfig W → List (RankKey W)
  extractors cfg = elim (known_keys cfg.rank_by) [
    | [] ↦ by_score ∷ by_expected_value ∷ []
    | k ∷ ks ↦ k ∷ ks
  ]

  -- The order of the key tuples: the first components that differ decide.
  unfoldable pub key_lt : List (RankKey W) → Scored W → Scored W → Bool
  key_lt [] (c, s) (d, t) =
      if str_eq c.symbol d.symbol then text_lt c.strategy d.strategy else text_lt c.symbol d.symbol
  key_lt (k ∷ ks) x y = let rest = key_lt ks x y in if eq (k x) (k y) then rest else lt (k x) (k y)

  -- The loop over the candidates: those that pass, and those rejected, each in order.
  unfoldable pub triage :
      RankingConfig W → List (Scored W) → List (Scored W) × List (RejectedAlternative W)
  triage cfg [] = ([], [])
  triage cfg ((c, s) ∷ rest) =
      let (scored, rejected) = triage cfg rest in
      if not (is_empty s.blockers)
      then (scored, rejected_as (c, s) (hard_blocker s.blockers) ∷ rejected)
      else if not (passed_threshold s)
      then (scored, rejected_as (c, s) (below_threshold s.total cfg.threshold) ∷ rejected)
      else ((c, s) ∷ scored, rejected)

  -- The scores, in order, by the context of each symbol.
  unfoldable pub scores :
      RankingConfig W
      → MetadataConfig W
      → List String
      → SetupContext
      → Dict SetupContext
      → List (Candidate W)
      → Result (List (Scored W))
  scores cfg meta no_trade ctx contexts [] = ok []
  scores cfg meta no_trade ctx contexts (c ∷ cs) = do
    s ← score cfg meta no_trade c (get_or c.symbol ctx contexts)
    rest ← scores cfg meta no_trade ctx contexts cs
    ok ((c, s) ∷ rest)

  -- The result of the candidates' scores.
  unfoldable pub ranking : RankingConfig W → List (Scored W) → RankingResult W
  ranking cfg all =
      let (scored, rejected) = triage cfg all in
      let selected = ranked_from 1 (sort_by (key_lt (extractors cfg)) scored) in
      record {
        selected = selected;
        rejected = rejected ++ losers selected;
        ranking_version = cfg.ranking_version;
      }

  -- `rank`
  unfoldable pub rank :
      RankingConfig W
      → MetadataConfig W
      → List String
      → SetupContext
      → Dict SetupContext
      → List (Candidate W)
      → Result (RankingResult W)
  rank cfg meta no_trade ctx contexts candidates =
      scores cfg meta no_trade ctx contexts candidates >>= λ all. ok (ranking cfg all)
