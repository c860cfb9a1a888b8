-- ===== src/Live/AccountLock.antt =====
-- src/live/account_lock.py: one trading session per exchange account. The lock store is Redis, given
-- by its operations on the one key of the account; the session's logging is left out.
pub mod Exclusion
use crypto_bot_quant.Base.{
  Bool, true, false, not, String, Option, none, some, is_some, str_eq, ◌&&◌, ◌≡◌, if◌then◌else◌,
}
use crypto_bot_quant.Base.Result.{Result, ok, raised, permission_error}

-- A call that raises gives false, or none. `set_nx` is `set(.., nx=True, ex=..)`.
pub record LockStore (E : Type 0) : Type 0 where
  pub connect : E → Bool × E
  pub set_nx : String → E → Option Bool × E
  pub get : E → Option (Option String) × E
  pub set : String → E → Bool × E
  pub delete : E → Bool × E
  pub holder : E → Option String

-- What Redis documents of these commands when they return; `holder` is the value of the key, which
-- other sessions and the key's expiry change between the calls.
pub record IsLockStore {E : Type 0} (v : LockStore E) : Type 0 where
  pub set_nx-done :
      (owner : String) (e : E)
      → (v.set_nx owner e).0 ≡ some true
      → (v.holder e ≡ none) × (v.holder (v.set_nx owner e).1 ≡ some owner)
  pub set_nx-refused :
      (owner : String) (e : E)
      → (v.set_nx owner e).0 ≡ some false
      → (is_some (v.holder e) ≡ true) × (v.holder (v.set_nx owner e).1 ≡ v.holder e)
  pub get-done :
      (e : E) {h : Option String}
      → (v.get e).0 ≡ some h
      → (v.holder e ≡ h) × (v.holder (v.get e).1 ≡ h)
  pub set-done :
      (owner : String) (e : E) → (v.set owner e).0 ≡ true → v.holder (v.set owner e).1 ≡ some owner

pub record AccountLock : Type 0 where
  pub owner : String
  pub client : Bool
  pub held : Bool

-- `str(current)`, which makes a missing key the text "None".
abbrev pub holder_text : Option String → String
holder_text none = "None"
holder_text (some t) = t

module _ {E : Type 0} where
  -- `_redis`
  unfoldable pub redis : LockStore E → AccountLock → E → Bool × AccountLock × E
  redis v s e =
      let (up, e1) = v.connect e in
      if s.client
      then (true, s, e)
      else if up
      then (true, record s { client = true }, e1)
      else (false, s, e1)

  -- `holder = client.get(..)` and the refusal that names the holder.
  unfoldable pub refuse : LockStore E → AccountLock → E → Result (Unit {0}) × AccountLock × E
  refuse v s e =
      let (answer, e1) = v.get e in
      elim answer [ none ↦ (ok tt, s, e1) | some h ↦ (raised permission_error, s, e1) ]

  unfoldable pub acquire : LockStore E → AccountLock → E → Result (Unit {0}) × AccountLock × E
  acquire v s e =
      let (found, s1, e1) = redis v s e in
      let (claimed, e2) = v.set_nx s1.owner e1 in
      if found
      then elim claimed [
        | none ↦ (ok tt, s1, e2)
        | some b ↦ if b then (ok tt, record s1 { held = true }, e2) else refuse v s1 e2
      ]
      else (ok tt, s1, e1)

  unfoldable pub refresh : LockStore E → AccountLock → E → AccountLock × E
  refresh v s e = if s.held && s.client then (s, (v.set s.owner e).1) else (s, e)

  unfoldable pub release : LockStore E → AccountLock → E → AccountLock × E
  release v s e =
      let (answer, e1) = v.get e in
      if s.held && s.client
      then (
        record s { held = false },
        elim answer [
          | none ↦ e1
          | some h ↦ if str_eq (holder_text h) s.owner then (v.delete e1).1 else e1
        ],
      )
      else (s, e)
