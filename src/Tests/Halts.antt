-- ===== src/Tests/Halts.antt =====
-- The halts and the claims on the account at concrete inputs.
use Prim.Native.Nat.{suc}
use crypto_bot_quant.Base.{
  ℕ, Bool, true, false, String, Option, none, some, [], ◌≡◌, ◌≢◌, refl, arith,
}
use crypto_bot_quant.Base.Int.{ℤ, pos, ◌≤ℤ◌}
use crypto_bot_quant.Base.Result.{Result, ok, raised, type_error}
use crypto_bot_quant.Base.Dict.{lookup}
use crypto_bot_quant.Base.Value.{Value, text, int}
use crypto_bot_quant.Base.Nano.{Nano, nano_float, dec}
use crypto_bot_quant.Risk.State.{RiskStateStore, missing, trip, is_tripped, refresh}
use crypto_bot_quant.Risk.State.Halt.{reason_on_file, trip_binds, trip_unwritten_is_lost}
use crypto_bot_quant.KillSwitch.{
  Environment, KillSwitch, written, disengage, redis, redis_write, clear_file, new_switch,
}
use crypto_bot_quant.Live.Guard.{
  LiveActivationGuard, allow_live_order, record_order_placed, new_guard, notional,
}
use crypto_bot_quant.Live.Guard.Bounded.{started, placed, session_within_caps, restart_keeps_budget}
use crypto_bot_quant.Live.AccountLock.{LockStore, IsLockStore, AccountLock, acquire, release}
use crypto_bot_quant.Live.AccountLock as Lock
use crypto_bot_quant.Live.AccountLock.Exclusion.{refresh_takes_over}
use crypto_bot_quant.Tests.Samples.{small_plan, differ}

abbrev fresh_store : RiskStateStore Nano
fresh_store = record { state = []; file = missing }

fresh_run : is_tripped fresh_store ≡ false
unfolding is_tripped refresh lookup
fresh_run = refl

trip_binds_example :
    let t = trip true "daily_loss_limit" (some (pos 1700000000000)) fresh_store in
    (reason_on_file t.file ≡ some (text "daily_loss_limit"))
    × (is_tripped {W = Nano} (record { state = []; file = t.file }) ≡ true)
trip_binds_example =
    trip_binds "daily_loss_limit" (some (pos 1700000000000)) fresh_store []
      (differ "daily_loss_limit" "" refl) fresh_run

trip_unwritten_is_lost_example : is_tripped (trip false "daily_loss_limit" none fresh_store) ≡ false
trip_unwritten_is_lost_example =
    trip_unwritten_is_lost "daily_loss_limit" none fresh_store fresh_run

-- A clock that moves by a second with each reading, a file system that works, and no Redis.
abbrev pub offline : Environment Nano ℕ
offline = record {
  monotonic = λ e. (dec e 0, suc e);
  stamp = λ actor reason e. (reason, e);
  write_file = λ e. (written, e);
  unlink = λ e. (true, e);
  connect = λ e. (false, e);
  set_key = λ t e. (false, e);
  delete_key = λ e. (false, e);
  exists = λ e. (none, e);
}

abbrev clear_switch : KillSwitch Nano
clear_switch = new_switch none

-- A poll a second ago found no file; another process has written it since.
abbrev stale_switch : KillSwitch Nano
stale_switch = record clear_switch { file = some "manual"; cached = some (dec 6 0, false) }

disengage_run : (disengage offline stale_switch 0).0 ≡ ok tt
unfolding disengage clear_file redis_write redis
disengage_run = refl

abbrev guard : LiveActivationGuard Nano
guard = record {
  limits = record {
    max_orders_per_session = pos 5;
    max_open_positions = pos 2;
    max_order_notional_pct = dec 5 2;
    account_equity = dec 10000 0;
  };
  state_store = some fresh_store;
  orders_placed = pos 4;
  open_positions = pos 1;
  position_source = none;
}

allow_run : allow_live_order true true true guard small_plan ≡ none
unfolding allow_live_order notional
allow_run = refl

abbrev after_order : LiveActivationGuard Nano
after_order = record_order_placed true true guard

session_within_caps_example :
    (after_order.orders_placed ≤ℤ after_order.limits.max_orders_per_session)
    × (after_order.open_positions ≤ℤ after_order.limits.max_open_positions)
session_within_caps_example =
    session_within_caps guard after_order
      (placed true true true true true small_plan started allow_run) refl

-- The builtin `int` on an integer; it is not asked for any other value.
abbrev to_int : Value Nano → Result ℤ
to_int (int n) = ok n
to_int v = raised type_error

restart_keeps_budget_example :
    (saved : RiskStateStore Nano) × (after_order.state_store ≡ some saved)
    × (g' : LiveActivationGuard Nano) × (new_guard to_int guard.limits
          (some (record saved { state = [] }))
        ≡ ok g')
    × (g'.orders_placed ≡ after_order.orders_placed)
restart_keeps_budget_example =
    restart_keeps_budget to_int true guard fresh_store [] (λ n. refl) refl

-- A lock store in memory, whose commands always return.
abbrev memory : LockStore (Option String)
memory = record {
  connect = λ e. (true, e);
  set_nx = λ owner e. elim e as (λ _. Option Bool × Option String) [
    | none ↦ (some true, some owner)
    | some h ↦ (some false, some h)
  ];
  get = λ e. (some e, e);
  set = λ owner e. (true, some owner);
  delete = λ e. (true, none);
  holder = λ e. e;
}

memory-IsLockStore : IsLockStore memory
memory-IsLockStore = record {
  set_nx-done = λ owner e h. ground arith;
  set_nx-refused = λ owner e h. ground arith;
  get-done = λ e h. ground arith;
  set-done = λ owner e h. refl;
}

abbrev session : AccountLock
session = record { owner = "basket"; client = false; held = false }

abbrev expired : AccountLock
expired = record { owner = "basket"; client = true; held = true }

-- Another session, of another owner.
abbrev scalper : AccountLock
scalper = record { owner = "scalper"; client = true; held = false }

distinct_owners : expired.owner ≢ scalper.owner
distinct_owners = differ "basket" "scalper" refl

refresh_takes_over_example :
    let (_, second', e1) = Lock.acquire memory scalper none in
    let (s', e2) = Lock.refresh memory expired e1 in
    ((Lock.redis memory scalper none).2 ≡ none)
    × (e1 ≡ some "scalper")
    × (e2 ≡ some "basket")
    × (s'.held ≡ true)
    × (second'.held ≡ true)
    × ((Lock.release memory second' e2).1 ≡ some "basket")
unfolding Lock.acquire Lock.refresh Lock.redis
refresh_takes_over_example =
    refresh_takes_over memory expired scalper none memory-IsLockStore refl refl refl distinct_owners
      refl refl refl
