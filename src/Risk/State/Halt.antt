-- ===== src/Risk/State/Halt.antt =====
-- A halt binds until the manual reset, across sessions.
use crypto_bot_quant.Base.{
  Bool, true, false, String, Option, none, some, List, [], ◌∷◌, ◌≡◌, ◌≢◌, ◌∙◌, arith, refl, eq_iff,
  All,
}
use crypto_bot_quant.Base.Int.{ℤ}
use crypto_bot_quant.Base.Dict.{Dict, lookup, insert, lookup-insert}
use crypto_bot_quant.Base.Value.{Value, text, int}
use crypto_bot_quant.Base.Float.{Float}
use crypto_bot_quant.Risk.State.{
  StateFile, RiskStateStore, read, contents, merge, update, reset, is_set, stamp, trip, is_tripped,
}

module _ {W : Type 0} ⦃f : Float W⦄ where
  -- The reason on file, as a session reads it.
  abbrev pub reason_on_file : StateFile W → Option (Value W)
  reason_on_file file = lookup "tripped_reason" (read file)

  lookup-stamp :
      (ts : Option ℤ) (d : Dict (Value W))
      → lookup "tripped_reason" (stamp ts d) ≡ lookup "tripped_reason" d
  lookup-stamp none d = refl
  lookup-stamp (some ts) d = lookup-insert "tripped_at" "tripped_reason" (int ts) d

  is_set-lookup :
      (key : String) (d d' : Dict (Value W))
      → lookup key d ≡ lookup key d'
      → is_set key d ≡ is_set key d'
  is_set-lookup key d d' e = ground arith

  trip-file :
      (reason : String) (ts : Option ℤ) (s : RiskStateStore W)
      → is_tripped s ≡ false
      → (trip true reason ts s).file
        ≡ contents (stamp ts (insert "tripped_reason" (text reason) (read s.file)))
  unfolding trip is_tripped
  trip-file reason ts s h = ground arith

  lookup-trip :
      (reason : String) (ts : Option ℤ) (d : Dict (Value W))
      → lookup "tripped_reason" (stamp ts (insert "tripped_reason" (text reason) d))
        ≡ some (text reason)
  lookup-trip reason ts d =
      lookup-stamp ts (insert "tripped_reason" (text reason) d)
      ∙ lookup-insert "tripped_reason" "tripped_reason" (text reason) d

  -- A halt that is written is seen by every session, whatever that session has in its copy, and
  -- carries the given reason.
  pub trip_binds :
      (reason : String) (ts : Option ℤ) (s : RiskStateStore W) (copy : Dict (Value W))
      → reason ≢ ""
      → is_tripped s ≡ false
      → let t = trip true reason ts s in
        (reason_on_file t.file ≡ some (text reason))
        × (is_tripped (record { state = copy; file = t.file }) ≡ true)
  unfolding is_tripped
  trip_binds reason ts s copy ne clear =
      let found = lookup-trip reason ts (read s.file) in
      rw (trip-file reason ts s clear) (found, ground (arith, found, eq_iff reason ""))

  lookup-merge :
      (key : String) (fields : List (String × Value W)) (d : Dict (Value W))
      → All (λ e. key ≢ e.0) fields
      → lookup key (merge fields d) ≡ lookup key d
  lookup-merge key [] d h = refl
  lookup-merge key ((k, v) ∷ fields) d h =
      ground
        (arith, lookup-merge key fields (insert k v d) h.1, lookup-insert k key v d, eq_iff key k)

  -- A routine update of other keys moves only these: it neither clears a halt nor brings back one
  -- that was cleared, whatever stale copy the session holds.
  pub update_keeps_halt :
      (wrote : Bool) (fields : List (String × Value W)) (s : RiskStateStore W)
      → All (λ e. "tripped_reason" ≢ e.0) fields
      → is_tripped (update wrote fields s) ≡ is_tripped s
  unfolding update is_tripped
  update_keeps_halt true fields s h =
      is_set-lookup "tripped_reason" (merge fields (read s.file)) (read s.file)
        (lookup-merge "tripped_reason" fields (read s.file) h)
  update_keeps_halt false fields s h = refl

  -- The manual reset clears the halt for every session and returns what was on file.
  pub reset_clears :
      (s : RiskStateStore W) (copy : Dict (Value W))
      → let (cleared, t) = reset true s in
        (cleared ≡ read s.file) × (is_tripped (record { state = copy; file = t.file }) ≡ false)
  unfolding reset is_tripped lookup
  reset_clears s copy = (refl, refl)

  -- A halt whose write fails does not bind, not even in the session that tripped it: the next read
  -- finds the file as it was.
  pub trip_unwritten_is_lost :
      (reason : String) (ts : Option ℤ) (s : RiskStateStore W)
      → is_tripped s ≡ false
      → is_tripped (trip false reason ts s) ≡ false
  unfolding trip is_tripped
  trip_unwritten_is_lost reason ts s h = ground arith
