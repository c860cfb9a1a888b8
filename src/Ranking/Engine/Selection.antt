-- ===== src/Ranking/Engine/Selection.antt =====
-- Which candidates the ranking selects, in which order, and what it says of the others.
use Prim.Native.Nat.{◌+◌}
use mathlib.Core.List.{Perm}
use crypto_bot_quant.Base.{
  ℕ, suc, Bool, true, false, not, String, List, [], ◌∷◌, ◌++◌, ◌≡◌, refl, sym, ap, ◌∙◌, subst,
  arith, map, ◌||◌, ◌&&◌, is_empty, is_some, elem, length, count_if, select, All, Bool-cases, inl,
  inr,
}
use crypto_bot_quant.Base.Result.{ok, >>=-eq-ok, ok_inj}
use crypto_bot_quant.Base.Dict.{Dict, get_or}
use crypto_bot_quant.Base.Float.{Float, IsOrdered, gt, ge, le, nought}
use crypto_bot_quant.Exchange.Metadata.{MetadataConfig, find_spec}
use crypto_bot_quant.Ranking.Candidate.{Candidate}
use crypto_bot_quant.Ranking.Setup.{
  RankingConfig, SetupContext, SetupScore, Blocker, noted, taker_fee, expected_value_after_costs,
  state_blockers, hard_blockers, components, score, approved, passed_threshold,
}
use crypto_bot_quant.Ranking.Engine.{
  RankingResult, RankedCandidate, RejectedAlternative, Scored, rejected_as, outranked, is_outranked,
  evaluated, sort_by, ranked_from, losers, extractors, key_lt, triage, scores, ranking, rank,
}
use crypto_bot_quant.Ranking.Engine.Sorting.{
  IsRanked, sort_by-perm, sort_by-All, sort_by-length, sort_by-IsRanked, key_lt_asym,
}

noted-empty :
    (b : Bool) (x : Blocker) (rest : List Blocker) → noted b x rest ≡ [] → (b ≡ false) × (rest ≡ [])
noted-empty true x rest h = cc
noted-empty false x rest h = (refl, h)

-- The state of the account and of the data stops no candidate.
abbrev pub IsCalm : {W : Type 0} → Candidate W → SetupContext → Type 0
IsCalm c ctx =
    (ctx.daily_loss_reached ≡ false)
    × (ctx.drawdown_reached ≡ false)
    × (ctx.data_quality_failed ≡ false)
    × (ctx.foreign_order_detected ≡ false)
    × (ctx.open_position_conflict ≡ false)
    × ((ctx.require_config_live_approved && not c.config_live_approved) ≡ false)

state_blockers-IsCalm :
    {W : Type 0} (c : Candidate W) (ctx : SetupContext) → state_blockers c ctx ≡ [] → IsCalm c ctx
unfolding state_blockers
state_blockers-IsCalm c ctx h =
    let a = noted-empty _ _ _ h in
    let b = noted-empty _ _ _ a.1 in
    let d = noted-empty _ _ _ b.1 in
    let e = noted-empty _ _ _ d.1 in
    let g = noted-empty _ _ _ e.1 in let k = noted-empty _ _ _ g.1 in (a.0, b.0, d.0, e.0, g.0, k.0)

-- A ranked candidate with its score.
abbrev pub scored_of : {W : Type 0} → RankedCandidate W → Scored W
scored_of r = (r.candidate, r.score)

module _ {W : Type 0} ⦃f : Float W⦄ (cfg : RankingConfig W) (meta : MetadataConfig W)
    (no_trade : List String) where
  -- What no score outweighs.
  pub record IsTradable (c : Candidate W) (ctx : SetupContext) : Type 0 where
    pub fresh : not c.data_fresh ≡ false
    pub verified : (not c.metadata_verified || not (is_some (find_spec meta c.symbol))) ≡ false
    pub priced : not (is_some (taker_fee meta c.symbol)) ≡ false
    pub allowed : elem c.regime no_trade ≡ false
    pub tight : gt c.spread_bps cfg.max_spread_bps ≡ false
    pub smooth : gt c.slippage_est cfg.max_slippage_frac ≡ false
    pub tradable : not c.symbol_tradable ≡ false
    pub enabled : not c.strategy_enabled ≡ false
    pub stopped : le c.stop_frac nought ≡ false
    pub worthwhile : le (expected_value_after_costs meta c) nought ≡ false
    pub calm : IsCalm c ctx

  pub hard_blockers-IsTradable :
      (c : Candidate W) (ctx : SetupContext)
      → hard_blockers cfg meta no_trade c ctx ≡ []
      → IsTradable c ctx
  unfolding hard_blockers
  hard_blockers-IsTradable c ctx h =
      let a = noted-empty _ _ _ h in
      let b = noted-empty _ _ _ a.1 in
      let d = noted-empty _ _ _ b.1 in
      let e = noted-empty _ _ _ d.1 in
      let g = noted-empty _ _ _ e.1 in
      let k = noted-empty _ _ _ g.1 in
      let l = noted-empty _ _ _ k.1 in
      let m = noted-empty _ _ _ l.1 in
      let n = noted-empty _ _ _ m.1 in
      let p = noted-empty _ _ _ n.1 in
      record {
        fresh = a.0;
        verified = b.0;
        priced = d.0;
        allowed = e.0;
        tight = g.0;
        smooth = k.0;
        tradable = l.0;
        enabled = m.0;
        stopped = n.0;
        worthwhile = p.0;
        calm = state_blockers-IsCalm c ctx p.1;
      }

  -- A score that names no blocker is that of a tradable candidate.
  abbrev pub IsEligible : SetupContext → Dict SetupContext → Scored W → Type 0
  IsEligible ctx contexts (c, s) =
      IsTradable c (get_or c.symbol ctx contexts) × (ge s.total cfg.threshold ≡ true)

  empty-of_is_empty : (xs : List Blocker) → is_empty xs ≡ true → xs ≡ []
  empty-of_is_empty [] e = refl
  empty-of_is_empty (x ∷ xs) e = cc

  pub score-IsTradable-of_empty :
      (c : Candidate W) (ctx : SetupContext) (s : SetupScore W)
      → score cfg meta no_trade c ctx ≡ ok s
      → is_empty s.blockers ≡ true
      → IsTradable c ctx
  unfolding score
  score-IsTradable-of_empty c ctx s h b =
      let (parts, e1, e2) = >>=-eq-ok (components cfg meta no_trade c) _ h in
      hard_blockers-IsTradable c ctx
        (ap (λ x. x.blockers) (ok_inj e2) ∙ empty-of_is_empty s.blockers b)

  score-IsTradable :
      (c : Candidate W) (ctx : SetupContext) (s : SetupScore W)
      → score cfg meta no_trade c ctx ≡ ok s
      → approved s ≡ true
      → IsTradable c ctx × (ge s.total cfg.threshold ≡ true)
  unfolding score
  score-IsTradable c ctx s h a =
      let (parts, e1, e2) = >>=-eq-ok (components cfg meta no_trade c) _ h in
      (
        score-IsTradable-of_empty c ctx s h (both s a).0,
        subst (λ t. ge s.total t ≡ true) (sym (ap (λ x. x.threshold) (ok_inj e2))) (both s a).1,
      )
    where
      both :
          (s : SetupScore W)
          → approved s ≡ true
          → (is_empty s.blockers ≡ true) × (passed_threshold s ≡ true)
      both s e = ground (arith, e)

  scores-Eligible :
      (ctx : SetupContext) (contexts : Dict SetupContext) (cs : List (Candidate W))
      (all : List (Scored W))
      → scores cfg meta no_trade ctx contexts cs ≡ ok all
      → All (λ x. approved x.1 ≡ true → IsEligible ctx contexts x) all
  unfolding scores
  scores-Eligible ctx contexts [] all h =
      subst (λ l. All (λ x. approved x.1 ≡ true → IsEligible ctx contexts x) l) (ok_inj h) tt
  scores-Eligible ctx contexts (c ∷ cs) all h =
      let (s, e1, e2) = >>=-eq-ok (score cfg meta no_trade c (get_or c.symbol ctx contexts)) _ h in
      let (rest, e3, e4) = >>=-eq-ok (scores cfg meta no_trade ctx contexts cs) _ e2 in
      subst (λ l. All (λ x. approved x.1 ≡ true → IsEligible ctx contexts x) l) (ok_inj e4)
        (
          score-IsTradable c (get_or c.symbol ctx contexts) s e1,
          scores-Eligible ctx contexts cs rest e3,
        )

  scores-candidates :
      (ctx : SetupContext) (contexts : Dict SetupContext) (cs : List (Candidate W))
      (all : List (Scored W))
      → scores cfg meta no_trade ctx contexts cs ≡ ok all
      → map (λ x. x.0) all ≡ cs
  unfolding scores
  scores-candidates ctx contexts [] all h = ap (map (λ x. x.0)) (sym (ok_inj h))
  scores-candidates ctx contexts (c ∷ cs) all h =
      let (s, e1, e2) = >>=-eq-ok (score cfg meta no_trade c (get_or c.symbol ctx contexts)) _ h in
      let (rest, e3, e4) = >>=-eq-ok (scores cfg meta no_trade ctx contexts cs) _ e2 in
      ap (map (λ x. x.0)) (sym (ok_inj e4))
      ∙ ap (λ l. c ∷ l) (scores-candidates ctx contexts cs rest e3)

  -- The loop keeps exactly the approved, in order.
  triage-select : (all : List (Scored W)) → (triage cfg all).0 ≡ select (λ x. approved x.1) all
  unfolding triage
  triage-select [] = refl
  triage-select ((c, s) ∷ rest) = ground (arith, triage-select rest)

  select-All :
      (ctx : SetupContext) (contexts : Dict SetupContext) (all : List (Scored W))
      → All (λ x. approved x.1 ≡ true → IsEligible ctx contexts x) all
      → All (IsEligible ctx contexts) (select (λ x. approved x.1) all)
  select-All ctx contexts [] h = tt
  select-All ctx contexts (x ∷ rest) h = elim (Bool-cases (approved x.1)) [
    | inl e ↦ rw e (h.0 e, select-All ctx contexts rest h.1)
    | inr e ↦ rw e (select-All ctx contexts rest h.1)
  ]

  ranked_from-All :
      (P : Scored W → Type 0) (n : ℕ) (xs : List (Scored W))
      → All P xs
      → All (λ r. P (scored_of r)) (ranked_from n xs)
  unfolding ranked_from
  ranked_from-All P n [] h = tt
  ranked_from-All P n (x ∷ xs) h = (h.0, ranked_from-All P (suc n) xs h.1)

  ranked_from-map : (n : ℕ) (xs : List (Scored W)) → map scored_of (ranked_from n xs) ≡ xs
  unfolding ranked_from
  ranked_from-map n [] = refl
  ranked_from-map n (x ∷ xs) = ap (λ l. x ∷ l) (ranked_from-map (suc n) xs)

  ranked_from-length : (n : ℕ) (xs : List (Scored W)) → length (ranked_from n xs) ≡ length xs
  unfolding ranked_from
  ranked_from-length n [] = refl
  ranked_from-length n (x ∷ xs) = ap suc (ranked_from-length (suc n) xs)

  -- Every selected candidate is tradable, whatever its score: its data is fresh, it has a verified
  -- spec with a fee, its regime may be traded, its spread and slippage are not above the caps, its
  -- stop and its expected value after costs are not at or below zero, and no halt of the account or
  -- of the data stands against it. Its score is not below the threshold.
  pub rank_selects-IsEligible :
      (ctx : SetupContext) (contexts : Dict SetupContext) (cs : List (Candidate W))
      (r : RankingResult W)
      → rank cfg meta no_trade ctx contexts cs ≡ ok r
      → All (λ x. IsEligible ctx contexts (scored_of x)) r.selected
  unfolding rank ranking
  rank_selects-IsEligible ctx contexts cs r h =
      let (all, e1, e2) = >>=-eq-ok (scores cfg meta no_trade ctx contexts cs) _ h in
      let order = key_lt (extractors cfg) in
      let kept = select-All ctx contexts all (scores-Eligible ctx contexts cs all e1) in
      let sorted =
        sort_by-All order (IsEligible ctx contexts) (triage cfg all).0
          (subst (All (IsEligible ctx contexts)) (sym (triage-select all)) kept) in
      subst (λ l. All (λ x. IsEligible ctx contexts (scored_of x)) l)
        (ap (λ x. x.selected) (ok_inj e2))
        (ranked_from-All (IsEligible ctx contexts) 1 (sort_by order (triage cfg all).0) sorted)

  -- What is selected is exactly what the scores approve, each candidate as often as it is given, and
  -- none comes strictly before the one ranked above it in the order of the keys, where the order of
  -- the floats has the laws of IEEE 754.
  pub rank_orders_approved :
      (ctx : SetupContext) (contexts : Dict SetupContext) (cs : List (Candidate W))
      (r : RankingResult W)
      → IsOrdered W
      → rank cfg meta no_trade ctx contexts cs ≡ ok r
      → (all : List (Scored W)) × (map (λ x. x.0) all ≡ cs)
        × (scores cfg meta no_trade ctx contexts cs ≡ ok all)
        × Perm (map scored_of r.selected) (select (λ x. approved x.1) all)
        × IsRanked (key_lt (extractors cfg)) (map scored_of r.selected)
  unfolding rank ranking
  rank_orders_approved ctx contexts cs r o h =
      let (all, e1, e2) = >>=-eq-ok (scores cfg meta no_trade ctx contexts cs) _ h in
      let order = key_lt (extractors cfg) in
      let kept = (triage cfg all).0 in
      let sorted : map scored_of r.selected ≡ sort_by order kept =
        ap (λ x. map scored_of x.selected) (sym (ok_inj e2))
        ∙ ranked_from-map 1 (sort_by order kept) in
      (
        all,
        scores-candidates ctx contexts cs all e1,
        e1,
        subst (λ l. Perm l (select (λ x. approved x.1) all)) (sym sorted)
            (subst (λ l. Perm (sort_by order kept) l) (triage-select all)
              (sort_by-perm order kept)),
        subst (λ l. IsRanked order l) (sym sorted)
            (sort_by-IsRanked order kept (λ x y e. key_lt_asym (extractors cfg) x y o e)),
      )

  abbrev filtered : List (RejectedAlternative W) → ℕ
  filtered xs = count_if (λ x. not (is_outranked x.reason)) xs

  triage-counts :
      (all : List (Scored W)) → length (triage cfg all).0 + filtered (triage cfg all).1 ≡ length all
  unfolding triage
  triage-counts [] = refl
  triage-counts ((c, s) ∷ rest) = ground (arith, triage-counts rest)

  filtered-append :
      (xs ys : List (RejectedAlternative W)) → filtered (xs ++ ys) ≡ filtered xs + filtered ys
  filtered-append [] ys = omega arith
  filtered-append (x ∷ xs) ys = ground (arith, filtered-append xs ys)

  outranked-filtered :
      (xs : List (RankedCandidate W))
      → filtered (map (λ r. rejected_as (scored_of r) (outranked r.rank)) xs) ≡ 0
  outranked-filtered [] = refl
  outranked-filtered (x ∷ xs) = outranked-filtered xs

  losers-filtered : (xs : List (RankedCandidate W)) → filtered (losers xs) ≡ 0
  losers-filtered [] = refl
  losers-filtered (x ∷ xs) = outranked-filtered xs

  -- The attribution counts every candidate of the cycle once, though it lists the outranked twice.
  pub evaluated_counts_each :
      (ctx : SetupContext) (contexts : Dict SetupContext) (cs : List (Candidate W))
      (r : RankingResult W)
      → rank cfg meta no_trade ctx contexts cs ≡ ok r
      → evaluated r ≡ length cs
  unfolding rank ranking evaluated
  evaluated_counts_each ctx contexts cs r h =
      let (all, e1, e2) = >>=-eq-ok (scores cfg meta no_trade ctx contexts cs) _ h in
      let kept = (triage cfg all).0 in
      let sorted = sort_by (key_lt (extractors cfg)) kept in
      let selected = ranked_from 1 sorted in
      let named : length all ≡ length cs =
        sym (length-map all) ∙ ap length (scores-candidates ctx contexts cs all e1) in
      ap evaluated (sym (ok_inj e2))
      ∙ omega (
        arith,
        ranked_from-length 1 sorted,
        sort_by-length (key_lt (extractors cfg)) kept,
        filtered-append (triage cfg all).1 (losers selected),
        losers-filtered selected,
        triage-counts all,
        named,
      )
    where
      length-map : (xs : List (Scored W)) → length (map (λ x. x.0) xs) ≡ length xs
      length-map [] = refl
      length-map (x ∷ xs) = ap suc (length-map xs)
