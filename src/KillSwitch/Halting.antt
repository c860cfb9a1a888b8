-- ===== src/KillSwitch/Halting.antt =====
-- The kill switch holds whatever Redis answers.
use crypto_bot_quant.Base.{
  ℕ, zero, suc, Bool, true, false, String, Option, none, some, is_some, ◌≡◌, ◌⊎◌, inl, inr, refl,
  arith, ◌&&◌,
}
use crypto_bot_quant.Base.Result.{ok}
use crypto_bot_quant.Base.Float.{Float, ◌-◌, lt}
use crypto_bot_quant.KillSwitch.{
  Environment, KillSwitch, drop_client, cache_ttl, redis, redis_write, attempts, engage, clear_file,
  disengage, redis_has_key, either_backend, fresh, engaged, status,
}

-- The file stands, and the cached result, if there is one, is that the switch is engaged.
abbrev pub is_halted : {W : Type 0} → KillSwitch W → Bool
is_halted s = is_some s.file && elim s.cached [ none ↦ true | some c ↦ c.1 ]

fresh-cached :
    {W : Type 0} ⦃f : Float W⦄ (now : W) (c : Option (W × Bool)) {b : Bool}
    → fresh now c ≡ some b
    → (ts : W) × (c ≡ some (ts, b)) × (lt (now - ts) cache_ttl ≡ true)
unfolding fresh
fresh-cached now none h = cc
fresh-cached now (some (ts, value)) h = (ts, ground arith, ground arith)

module _ {W E : Type 0} ⦃f : Float W⦄ where
  -- Redis's calls touch neither the file nor the cached result.
  redis-keeps :
      (v : Environment W E) (s : KillSwitch W) (e : E)
      → let (_, s', _) = redis v s e in (s'.file ≡ s.file) × (s'.cached ≡ s.cached)
  unfolding redis
  redis-keeps v s e = ground arith

  redis_write-keeps :
      (n : ℕ) (v : Environment W E) (fn : E → Bool × E) (s : KillSwitch W) (e : E)
      → let (s', _) = redis_write n v fn s e in (s'.file ≡ s.file) × (s'.cached ≡ s.cached)
  unfolding redis_write
  redis_write-keeps zero v fn s e = (refl, refl)
  redis_write-keeps (suc n) v fn s e =
      let (_, s1, e1) = redis v s e in
      ground (arith, redis-keeps v s e, redis_write-keeps n v fn (drop_client s1) (fn e1).1)

  either_backend-on_file :
      (v : Environment W E) (s : KillSwitch W) (e : E)
      → is_some s.file ≡ true
      → either_backend v s e ≡ (true, s, e)
  unfolding either_backend
  either_backend-on_file v s e h = rw h

  -- A switch after an engage that returned, without a disengage since: this process polls it, shows
  -- its status or engages it again, with whatever outcome, and another process rewrites the file.
  -- Between any two of these the environment changes at will.
  pub data IsEngaged (v : Environment W E) : KillSwitch W → Type 0 where
    engaged_here :
        (reason actor : String) (s : KillSwitch W) (e : E)
        → (engage v reason actor s e).0 ≡ ok tt
        → IsEngaged v (engage v reason actor s e).1
    polled : {s : KillSwitch W} (e : E) → IsEngaged v s → IsEngaged v (engaged v s e).1
    shown : {s : KillSwitch W} (e : E) → IsEngaged v s → IsEngaged v (status v s e).1
    engaged_again :
        {s : KillSwitch W} (reason actor : String) (e : E)
        → IsEngaged v s
        → IsEngaged v (engage v reason actor s e).1
    rewritten :
        {s : KillSwitch W} (contents : String)
        → IsEngaged v s
        → IsEngaged v (record s { file = some contents })

  -- While the file stands, whoever wrote it, a poll answers that the switch is engaged, unless a
  -- cached answer younger than the time to live says otherwise.
  pub engaged_stale_bounded :
      (v : Environment W E) (s : KillSwitch W) (e : E)
      → is_some s.file ≡ true
      → ((engaged v s e).0 ≡ true)
        ⊎ ((ts : W) × (s.cached ≡ some (ts, false))
            × (lt ((v.monotonic e).0 - ts) cache_ttl ≡ true))
  unfolding engaged
  engaged_stale_bounded v s e h = go (fresh (v.monotonic e).0 s.cached) refl
    where
      go :
          (c : Option Bool)
          → fresh (v.monotonic e).0 s.cached ≡ c
          → ((engaged v s e).0 ≡ true)
            ⊎ ((ts : W) × (s.cached ≡ some (ts, false))
                × (lt ((v.monotonic e).0 - ts) cache_ttl ≡ true))
      go none k = inl (ground (arith, either_backend-on_file v s (v.monotonic e).1 h))
      go (some true) k = inl (ground arith)
      go (some false) k = inr (fresh-cached (v.monotonic e).0 s.cached k)

  disengage-clears :
      (v : Environment W E) (s : KillSwitch W) (e : E)
      → (disengage v s e).0 ≡ ok tt
      → ((disengage v s e).1.file ≡ none) × ((disengage v s e).1.cached ≡ none)
  unfolding disengage clear_file
  disengage-clears v s e h =
      let (_, s1, e1) = clear_file v s e in
      ground (arith, redis_write-keeps attempts v v.delete_key s1 e1)

  engaged-clear :
      (v : Environment W E) (s : KillSwitch W) (e : E)
      → s.file ≡ none
      → s.cached ≡ none
      → let (found, s1, e1) = redis v s (v.monotonic e).1 in
        (engaged v s e).0 ≡ (redis_has_key v found s1 e1).0
  unfolding engaged fresh either_backend
  engaged-clear v s e h k = rw (h, k) refl

  -- After a disengage that returned, with no file written since, the next poll answers what Redis
  -- says: if Redis does not report the key the switch is clear, and a key that Redis has kept,
  -- because it could not be reached, halts it.
  pub disengage_leaves_redis :
      (v : Environment W E) (s : KillSwitch W) (e e' : E)
      → (disengage v s e).0 ≡ ok tt
      → let (_, s', _) = disengage v s e in
        let (found, s1, e1) = redis v s' (v.monotonic e').1 in
        (s'.file ≡ none) × ((engaged v s' e').0 ≡ (redis_has_key v found s1 e1).0)
  disengage_leaves_redis v s e e' h =
      let cleared = disengage-clears v s e h in
      (cleared.0, engaged-clear v (disengage v s e).1 e' cleared.0 cleared.1)
