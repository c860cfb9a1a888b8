-- ===== src/Paper/Engine/Restart.antt =====
-- A restart forgets none of the day's losses.
use crypto_bot_quant.Base.{
  Bool, true, String, Option, none, some, List, [], ◌∷◌, ◌≡◌, refl, sym, ap, ◌∙◌, subst, arith,
  Bool-cases, inl, inr, if◌then◌else◌, not, ◌||◌, str_eq,
}
use crypto_bot_quant.Base.Int.{ℤ, pos, negsuc}
use crypto_bot_quant.Base.Result.{Result, ok, ◌>>=◌}
use crypto_bot_quant.Base.Dict.{Dict, lookup, insert, lookup-insert}
use crypto_bot_quant.Base.Value.{Value, null, int, float, truthy, float_or_zero}
use crypto_bot_quant.Base.Float.{Float, ◌-◌, max, nought}
use crypto_bot_quant.Risk.State.{RiskStateStore, read, merge, update, refresh}
use crypto_bot_quant.Paper.Engine.{
  PaperTradingEngine, value_at, same_value, operand, is_null, day_of, week_of, restart_state,
  persist_state, attach_state_store, roll_anchors, calendar_windows,
}

module _ {W : Type 0} ⦃f : Float W⦄ where
  -- The item of a key that comes last, which is the one that stays.
  abbrev last_item : String → List (String × Value W) → Option (Value W)
  last_item k [] = none
  last_item k ((j, v) ∷ fields) = elim (last_item k fields) [
    | some x ↦ some x
    | none ↦ if str_eq k j then some v else none
  ]

  abbrev or_else : Option (Value W) → Option (Value W) → Option (Value W)
  or_else (some x) o = some x
  or_else none o = o

  lookup-merge :
      (k : String) (fields : List (String × Value W)) (d : Dict (Value W))
      → lookup k (merge fields d) ≡ or_else (last_item k fields) (lookup k d)
  lookup-merge k [] d = refl
  lookup-merge k ((j, v) ∷ fields) d =
      lookup-merge k fields (insert j v d) ∙ ground (arith, lookup-insert j k v d)

  abbrev or_null : Option (Value W) → Value W
  or_null o = elim o [ none ↦ null | some v ↦ v ]

  -- The saved streak, as `attach_state_store` reads it.
  streak-read :
      (to_int : Value W → Result ℤ) (n : ℤ)
      → ((k : ℤ) → to_int (int k) ≡ ok k)
      → (if truthy ⦃f = f⦄ (int n) then to_int (int n) else ok (pos 0)) ≡ ok n
  streak-read to_int (pos n) h = ground (arith, h (pos n))
  streak-read to_int (negsuc n) h = ground (arith, h (negsuc n))

  -- The saved peak.
  abbrev or_zero : W → W
  or_zero x = if f.eq x nought then nought else x

  high-read : (x : W) → float_or_zero (float x) ≡ ok (or_zero x)
  high-read x = ground arith

  -- The windows as a function of the anchors alone.
  abbrev windows_of : ℤ → W → Value W → Value W → Value W → Value W → Result (W × W)
  windows_of ts equity dk wk da wa =
      let day = if not (same_value dk (day_of ts)) || is_null da then float equity else da in
      let week = if not (same_value wk (week_of ts)) || is_null wa then float equity else wa in
      operand day >>= λ a. operand week >>= λ b. ok (equity - a, equity - b)

module _ {W S : Type 0} ⦃f : Float W⦄ where
  -- What a session that reads the file finds under the keys that the engine persists.
  record IsSaved (e : PaperTradingEngine W S) (d : Dict (Value W)) : Type 0 where
    streak : value_at "consecutive_losses" d ≡ int e.consecutive_losses
    high : value_at "peak_equity" d ≡ float e.peak_equity
    day : value_at "day_key" d ≡ e.rv_day_key
    week : value_at "week_key" d ≡ e.rv_week_key
    day_anchor : value_at "day_anchor_equity" d ≡ e.rv_day_anchor
    week_anchor : value_at "week_anchor_equity" d ≡ e.rv_week_anchor

  merge-Saved :
      (e : PaperTradingEngine W S) (d : Dict (Value W)) → IsSaved e (merge (restart_state e) d)
  merge-Saved e d =
      let found : (k : String)
          → value_at k (merge (restart_state e) d)
            ≡ or_null (or_else (last_item k (restart_state e)) (lookup k d)) =
        λ k. ap or_null (lookup-merge k (restart_state e) d) in
      record {
        streak = found "consecutive_losses";
        high = found "peak_equity";
        day = found "day_key";
        week = found "week_key";
        day_anchor = found "day_anchor_equity";
        week_anchor = found "week_anchor_equity";
      }

  persist_state-anchors :
      (w : Bool) (e : PaperTradingEngine W S)
      → ((persist_state w e).rv_day_anchor ≡ e.rv_day_anchor)
        × ((persist_state w e).rv_week_anchor ≡ e.rv_week_anchor)
  unfolding persist_state
  persist_state-anchors w e = ground arith

  calendar_windows-anchors :
      (w : Bool) (ts : ℤ) (equity : W) (e : PaperTradingEngine W S)
      → (calendar_windows w ts equity e).0
        ≡ windows_of ts equity e.rv_day_key e.rv_week_key e.rv_day_anchor e.rv_week_anchor
  unfolding calendar_windows roll_anchors
  calendar_windows-anchors w ts equity e =
      let rolled = roll_anchors ts equity e in
      let kept = persist_state-anchors w rolled.1 in
      elim (Bool-cases rolled.0) [
        | inl b ↦ simp (b, kept.0, kept.1, calendar_windows)
        | inr b ↦ simp (b, calendar_windows)
      ]

  persist_state-file :
      (e : PaperTradingEngine W S) (store saved : RiskStateStore W)
      → e.state_store ≡ some store
      → (persist_state true e).state_store ≡ some saved
      → read saved.file ≡ merge (restart_state e) (read store.file)
  unfolding persist_state update
  persist_state-file e store saved h left =
      let written : (persist_state true e).state_store
          ≡ some (update true (restart_state e) store) =
        rw (h, persist_state) refl in
      let same : saved ≡ update true (restart_state e) store = some_inj (sym left ∙ written) in
      ap (λ x. read x.file) same
    where
      some_inj : {x y : RiskStateStore W} → some x ≡ some y → x ≡ y
      some_inj e = cc

  -- The windows that a restarted engine computes are those of the engine that saved its state,
  -- whatever the time and the equity, and it counts on with the same streak of losses; the state is
  -- written, and `int` of an integer is that integer.
  pub restart_keeps_windows :
      (to_int : Value W → Result ℤ) (e fresh : PaperTradingEngine W S)
      (store saved : RiskStateStore W) (copy : Dict (Value W)) (w w' : Bool) (ts : ℤ) (equity : W)
      → ((n : ℤ) → to_int (int n) ≡ ok n)
      → e.state_store ≡ some store
      → (persist_state true e).state_store ≡ some saved
      → (later : PaperTradingEngine W S) × (attach_state_store to_int
            (record saved { state = copy })
            fresh
          ≡ ok later)
        × (later.consecutive_losses ≡ e.consecutive_losses)
        × ((calendar_windows w ts equity later).0 ≡ (calendar_windows w' ts equity e).0)
  unfolding attach_state_store refresh
  restart_keeps_windows to_int e fresh store saved copy w w' ts equity ints h left =
      let d = read saved.file in
      let sv : IsSaved e d =
        subst (IsSaved e) (sym (persist_state-file e store saved h left))
          (merge-Saved e (read store.file)) in
      let later : PaperTradingEngine W S = record fresh {
        state_store = some (record saved { state = d });
        consecutive_losses = e.consecutive_losses;
        peak_equity = max fresh.peak_equity (or_zero e.peak_equity);
        rv_day_key = value_at "day_key" d;
        rv_week_key = value_at "week_key" d;
        rv_day_anchor = value_at "day_anchor_equity" d;
        rv_week_anchor = value_at "week_anchor_equity" d;
      } in
      (
        later,
        rw
            (
              sv.streak,
              streak-read to_int e.consecutive_losses ints,
              sv.high,
              high-read e.peak_equity,
              attach_state_store,
            )
            refl,
        refl,
        calendar_windows-anchors w ts equity later
            ∙ rw (sv.day, sv.week, sv.day_anchor, sv.week_anchor) refl
            ∙ sym (calendar_windows-anchors w' ts equity e),
      )
