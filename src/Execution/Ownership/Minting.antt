-- ===== src/Execution/Ownership/Minting.antt =====
-- What a minted client order id is.
use Prim.Native.Nat.{◌+◌}
use Prim.Native.String as Text
use text.Mathlib.TextPositions.{starts_with-append}
use text.Mathlib.TextLemmas.{append-eq-nil_iff}
use crypto_bot_quant.Base.{◌≤◌, true, String, some, ◌≡◌, ◌≢◌, arith, eq_iff}
use crypto_bot_quant.Base.Result.{ok}
use crypto_bot_quant.Execution.Ownership.{
  OwnershipPolicy, max_client_id_len, client_id_text, new_client_id, is_own,
}

own_prefix :
    (p : OwnershipPolicy) (rest : String)
    → p.prefix ≢ ""
    → is_own p (some (Text.◌++◌ p.prefix rest)) ≡ true
unfolding is_own
own_prefix p rest ne = ground (
  arith,
  eq_iff p.prefix "",
  eq_iff (Text.◌++◌ p.prefix rest) "",
  λ (e : Text.◌++◌ p.prefix rest ≡ ""). (append-eq-nil_iff.0 e).0,
  starts_with-append p.prefix rest,
)

client_id_text-is_own :
    (role : String) (p : OwnershipPolicy)
    → p.prefix ≢ ""
    → is_own p (some (client_id_text role p)) ≡ true
unfolding client_id_text
client_id_text-is_own role p ne = own_prefix p _ ne

-- A minted id is the bot's own, fits the exchange's limit and uses up one number, wherever the bot
-- has a prefix.
pub new_client_id-is_own :
    (role : String) (p : OwnershipPolicy) {cid : String} {p' : OwnershipPolicy}
    → p.prefix ≢ ""
    → new_client_id role p ≡ ok (cid, p')
    → (is_own p (some cid) ≡ true)
      × (Text.count cid ≤ max_client_id_len)
      × (p' ≡ record p { counter = p.counter + 1 })
unfolding new_client_id
new_client_id-is_own role p {cid} ne h = ground (arith, client_id_text-is_own role p ne)
