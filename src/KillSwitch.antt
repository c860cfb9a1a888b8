-- ===== src/KillSwitch.antt =====
-- src/killswitch.py: the manual kill switch, a local file and a Redis key. The clocks, the file
-- system's and Redis's answers are the operations of an environment, which every call passes on.
pub mod Halting
use crypto_bot_quant.Base.{
  ℕ, zero, suc, Bool, true, false, String, Option, none, some, is_some, ◌||◌, if◌then◌else◌,
}
use crypto_bot_quant.Base.Result.{Result, ok, raised, os_error}
use crypto_bot_quant.Base.Float.{Float, ◌+◌, ◌-◌, lt, nought}

-- How the creation of the folder and the writing of the file end: a write that raises leaves the
-- file as it was or with some of the text.
pub data FileWrite : Type 0 where
  written not_opened : FileWrite
  cut_off : String → FileWrite

-- `write_file` and `unlink` are the file system's calls; the others are the clocks' and Redis's. A
-- Redis call that raises gives false, or none.
pub record Environment (W E : Type 0) : Type 0 where
  pub monotonic : E → W × E
  pub stamp : String → String → E → String × E
  pub write_file : E → FileWrite × E
  pub unlink : E → Bool × E
  pub connect : E → Bool × E
  pub set_key : String → E → Bool × E
  pub delete_key : E → Bool × E
  pub exists : E → Option Bool × E

-- `client` is whether a client is cached; the file is shared with every other process.
pub record KillSwitch (W : Type 0) : Type 0 where
  pub file : Option String
  pub client : Bool
  pub down_until : W
  pub cached : Option (W × Bool)

pub record Status : Type 0 where
  pub engaged : Bool
  pub file_backend : Bool
  pub redis_backend : Bool
  pub redis_reachable : Bool
  pub detail : String

-- `range(2)` of `_redis_write`
abbrev pub attempts : ℕ
attempts = 2

module _ {W : Type 0} where
  -- `_drop_client`
  abbrev pub drop_client : KillSwitch W → KillSwitch W
  drop_client s = record s { client = false }

module _ {W : Type 0} ⦃f : Float W⦄ where
  -- A new instance, beside the file that it finds.
  abbrev pub new_switch : Option String → KillSwitch W
  new_switch file = record { file = file; client = false; down_until = nought; cached = none }

  abbrev pub cache_ttl : W
  cache_ttl = f.lit 15 1

  abbrev pub retry_backoff : W
  retry_backoff = f.lit 5 0

  -- The cached result, while it is fresh.
  unfoldable pub fresh : W → Option (W × Bool) → Option Bool
  fresh now none = none
  fresh now (some (ts, value)) = if lt (now - ts) cache_ttl then some value else none

module _ {W E : Type 0} ⦃f : Float W⦄ where
  -- `_redis`: whether a client is at hand.
  unfoldable pub redis : Environment W E → KillSwitch W → E → Bool × KillSwitch W × E
  redis v s e =
      if s.client
      then (true, s, e)
      else let (now, e1) = v.monotonic e in
        if lt now s.down_until
        then (false, s, e1)
        else let (up, e2) = v.connect e1 in
          let (failed_at, e3) = v.monotonic e2 in
          if up
          then (true, record s { client = true }, e2)
          else (false, record s { down_until = failed_at + retry_backoff }, e3)

  -- `_redis_write`, with the number of attempts left; its last attempt drops the client as well.
  unfoldable pub redis_write :
      ℕ → Environment W E → (E → Bool × E) → KillSwitch W → E → KillSwitch W × E
  redis_write zero v fn s e = (s, e)
  redis_write (suc n) v fn s e =
      let (found, s1, e1) = redis v s e in
      let (done, e2) = fn e1 in
      let retried = redis_write n v fn (drop_client s1) e2 in
      if found then if done then (s1, e2) else retried else (s1, e1)

  -- A call that raises leaves its effects, as it does in the source: these come beside the result.
  unfoldable pub engage :
      Environment W E → String → String → KillSwitch W → E → Result (Unit {0}) × KillSwitch W × E
  engage v reason actor s e =
      let (stamp, e1) = v.stamp actor reason e in
      let (outcome, e2) = v.write_file e1 in
      elim outcome [
        | written ↦
            let (s1, e3) =
              redis_write attempts v (v.set_key stamp) (record s { file = some stamp }) e2 in
            (ok tt, record s1 { cached = none }, e3)
        | not_opened ↦ (raised os_error, s, e2)
        | cut_off part ↦ (raised os_error, record s { file = some part }, e2)
      ]

  -- `self._file.unlink()`, if the file exists.
  unfoldable pub clear_file : Environment W E → KillSwitch W → E → Bool × KillSwitch W × E
  clear_file v s e =
      let (removed, e1) = v.unlink e in
      if is_some s.file
      then if removed then (true, record s { file = none }, e1) else (false, s, e1)
      else (true, s, e)

  unfoldable pub disengage :
      Environment W E → KillSwitch W → E → Result (Unit {0}) × KillSwitch W × E
  disengage v s e =
      let (cleared, s1, e1) = clear_file v s e in
      let (s2, e2) = redis_write attempts v v.delete_key s1 e1 in
      if cleared then (ok tt, record s2 { cached = none }, e2) else (raised os_error, s1, e1)

  -- `_redis_has_key`, with whether there is a client.
  unfoldable pub redis_has_key : Environment W E → Bool → KillSwitch W → E → Bool × KillSwitch W × E
  redis_has_key v false s e = (false, s, e)
  redis_has_key v true s e =
      let (answer, e1) = v.exists e in
      elim answer [ none ↦ (false, drop_client s, e1) | some b ↦ (b, s, e1) ]

  -- `self._file.exists() or self._redis_has_key(self._redis())`
  unfoldable pub either_backend : Environment W E → KillSwitch W → E → Bool × KillSwitch W × E
  either_backend v s e =
      if is_some s.file
      then (true, s, e)
      else let (found, s1, e1) = redis v s e in redis_has_key v found s1 e1

  unfoldable pub engaged : Environment W E → KillSwitch W → E → Bool × KillSwitch W × E
  engaged v s e =
      let (now, e1) = v.monotonic e in
      let (value, s1, e2) = either_backend v s e1 in
      elim (fresh now s.cached) [
        | some b ↦ (b, s, e1)
        | none ↦ (value, record s1 { cached = some (now, value) }, e2)
      ]

  unfoldable pub status : Environment W E → KillSwitch W → E → Status × KillSwitch W × E
  status v s e =
      let (found, s1, e1) = redis v s e in
      let (halted, s2, e2) = engaged v s1 e1 in
      let (key, s3, e3) = redis_has_key v found s2 e2 in
      (
        record {
          engaged = halted;
          file_backend = is_some s2.file;
          redis_backend = key;
          redis_reachable = found;
          detail = elim s3.file [ none ↦ "" | some t ↦ t ];
        },
        s3,
        e3,
      )
