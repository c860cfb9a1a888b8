-- ===== src/Live/AccountLock/Exclusion.antt =====
-- What the claim excludes, and what it does not.
use crypto_bot_quant.Base.{
  true, false, String, Option, none, some, is_some, eq_iff, ◌≡◌, ◌≢◌, ◌∙◌, arith, refl,
}
use crypto_bot_quant.Base.Result.{ok}
use crypto_bot_quant.Live.AccountLock.{
  LockStore, IsLockStore, AccountLock, redis, refuse, acquire, refresh, release,
}

module _ {E : Type 0} where
  redis-keeps :
      (v : LockStore E) (s : AccountLock) (e : E)
      → let (_, s', _) = redis v s e in (s'.owner ≡ s.owner) × (s'.held ≡ s.held)
  unfolding redis
  redis-keeps v s e = ground arith

  -- A session that claims the account is its holder then, and nobody held it before; a session that
  -- is refused found another claim on it.
  pub acquire_exclusive :
      (v : LockStore E) (s : AccountLock) (e : E)
      → IsLockStore v
      → s.held ≡ false
      → let (r, s', e') = acquire v s e in
        let (_, _, e1) = redis v s e in
        (s'.held ≡ true → (v.holder e1 ≡ none) × (v.holder e' ≡ some s.owner))
        × (r ≢ ok tt → (s'.held ≡ false) × (is_some (v.holder e1) ≡ true))
  unfolding acquire refuse
  acquire_exclusive v s e l free =
      let (_, s1, e1) = redis v s e in
      ground (arith, redis-keeps v s e, l.set_nx-done s.owner e1, l.set_nx-refused s.owner e1)

  acquire-owner : (v : LockStore E) (s : AccountLock) (e : E) → (acquire v s e).1.owner ≡ s.owner
  unfolding acquire refuse
  acquire-owner v s e = let (_, s1, e1) = redis v s e in ground (arith, redis-keeps v s e)

  -- A refresh whose write returns makes the session the holder, whoever was.
  refresh-held :
      (v : LockStore E) (s : AccountLock) (e : E)
      → IsLockStore v
      → s.held ≡ true
      → s.client ≡ true
      → (v.set s.owner e).0 ≡ true
      → (v.holder (refresh v s e).1 ≡ some s.owner) × ((refresh v s e).0.held ≡ true)
  unfolding refresh
  refresh-held v s e l h k d = ground (arith, l.set-done s.owner e)

  get-holder :
      (v : LockStore E) (e : E) (other : String) (answer : Option (Option String))
      → IsLockStore v
      → v.holder e ≡ some other
      → is_some answer ≡ true
      → (v.get e).0 ≡ answer
      → ((v.get e).0 ≡ some (some other)) × (v.holder (v.get e).1 ≡ some other)
  get-holder v e other none l h r k = absurd (ground (arith, r))
  get-holder v e other (some found) l h r k =
      let (before, after) = l.get-done e k in ground (arith, before, after, h, k)

  -- A release whose read of the key returns leaves another session's claim on the account as it is,
  -- whatever this session believes to hold.
  pub release_only_own :
      (v : LockStore E) (s : AccountLock) (e : E) (other : String)
      → IsLockStore v
      → v.holder e ≡ some other
      → other ≢ s.owner
      → is_some (v.get e).0 ≡ true
      → v.holder (release v s e).1 ≡ some other
  unfolding release
  release_only_own v s e other l h ne r =
      ground (arith, get-holder v e other (v.get e).0 l h r refl, eq_iff other s.owner)

  -- A refresh takes the account over: where a connected session holds it, by its own account and not
  -- by the store, so that nobody holds it there (its claim has expired) and the acquire of another
  -- session, of another owner and without a claim so far, claims it, a refresh of the first whose
  -- write returns makes the first the holder again. Then both sessions take themselves for the
  -- holder, and a release of the second whose read returns leaves the first as the holder. The
  -- commands of the store do what Redis documents.
  pub refresh_takes_over :
      (v : LockStore E) (s second : AccountLock) (e : E)
      → IsLockStore v
      → s.held ≡ true
      → s.client ≡ true
      → second.held ≡ false
      → s.owner ≢ second.owner
      → (acquire v second e).1.held ≡ true
      → (v.set s.owner (acquire v second e).2).0 ≡ true
      → is_some (v.get (refresh v s (acquire v second e).2).1).0 ≡ true
      → let (_, second', e1) = acquire v second e in
        let (s', e2) = refresh v s e1 in
        (v.holder (redis v second e).2 ≡ none)
        × (v.holder e1 ≡ some second.owner)
        × (v.holder e2 ≡ some s.owner)
        × (s'.held ≡ true)
        × (second'.held ≡ true)
        × (v.holder (release v second' e2).1 ≡ some s.owner)
  refresh_takes_over v s second e l h k free ne claims d reads =
      let (_, second', e1) = acquire v second e in
      let (was, now) = (acquire_exclusive v second e l free).0 claims in
      let (back, still) = refresh-held v s e1 l h k d in
      let kept = acquire-owner v second e in
      let left =
        release_only_own v second' (refresh v s e1).1 s.owner l back (λ q. ne (q ∙ kept)) reads in
      (was, now, back, still, claims, left)
