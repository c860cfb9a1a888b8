-- ===== src/Risk/State.antt =====
-- src/risk/state.py: the halt state that outlives the process. Two sessions share one file, and each
-- keeps a copy; a store is the copy of one session with the file. The state's values are those of
-- the parsed JSON; `wrote` says whether the write of the file succeeds, which it may not.
pub mod Halt
use crypto_bot_quant.Base.{
  Bool, true, false, String, Option, none, some, List, [], ◌∷◌, if◌then◌else◌,
}
use crypto_bot_quant.Base.Int.{ℤ}
use crypto_bot_quant.Base.Dict.{Dict, lookup, insert}
use crypto_bot_quant.Base.Value.{Value, text, int, truthy}
use crypto_bot_quant.Base.Float.{Float}

-- The file as `_read` finds it: `unreadable` stands for every content that is no JSON object.
pub data StateFile (W : Type 0) : Type 0 where
  missing unreadable : StateFile W
  contents : Dict (Value W) → StateFile W

pub record RiskStateStore (W : Type 0) : Type 0 where
  pub state : Dict (Value W)
  pub file : StateFile W

module _ {W : Type 0} where
  -- `_read`
  abbrev pub read : StateFile W → Dict (Value W)
  read missing = []
  read unreadable = []
  read (contents d) = d

  -- `_write`: the replacement of the file is atomic, and a failure is only logged.
  unfoldable pub write : Bool → RiskStateStore W → RiskStateStore W
  write wrote s = if wrote then record s { file = contents s.state } else s

  -- `_refresh`
  unfoldable pub refresh : RiskStateStore W → RiskStateStore W
  refresh s = record s { state = read s.file }

  unfoldable pub get : String → RiskStateStore W → Option (Value W) × RiskStateStore W
  unfolding refresh
  get key s = let t = refresh s in (lookup key t.state, t)

  -- `dict.update`
  abbrev pub merge : List (String × Value W) → Dict (Value W) → Dict (Value W)
  merge [] d = d
  merge ((k, v) ∷ fields) d = merge fields (insert k v d)

  unfoldable pub update : Bool → List (String × Value W) → RiskStateStore W → RiskStateStore W
  unfolding refresh write
  update wrote fields s =
      let t = refresh s in write wrote (record t { state = merge fields t.state })

  -- `reset` returns the state that was cleared.
  unfoldable pub reset : Bool → RiskStateStore W → Dict (Value W) × RiskStateStore W
  unfolding refresh write
  reset wrote s = let t = refresh s in (t.state, write wrote (record t { state = [] }))

module _ {W : Type 0} ⦃f : Float W⦄ where
  -- `d.get(k)` in a condition.
  abbrev pub is_set : String → Dict (Value W) → Bool
  is_set key d = elim (lookup key d) [ none ↦ false | some v ↦ truthy v ]

  -- `self._state["tripped_at"] = int(ts_ms)`, if it is given.
  abbrev pub stamp : Option ℤ → Dict (Value W) → Dict (Value W)
  stamp none d = d
  stamp (some ts) d = insert "tripped_at" (int ts) d

  unfoldable pub trip : Bool → String → Option ℤ → RiskStateStore W → RiskStateStore W
  unfolding refresh write
  trip wrote reason ts_ms s =
      let t = refresh s in
      if is_set "tripped_reason" t.state
      then t
      else write wrote
          (record t { state = stamp ts_ms (insert "tripped_reason" (text reason) t.state) })

  -- Whether `tripped_reason` returns a reason; the engine refuses every entry while it does.
  unfoldable pub is_tripped : RiskStateStore W → Bool
  unfolding refresh
  is_tripped s = is_set "tripped_reason" (refresh s).state
