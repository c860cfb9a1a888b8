-- ===== src/Execution/Ownership.antt =====
-- src/execution/ownership.py: prefixed client order ids, and which ids are the bot's own. The session
-- token, which the code draws at random, is a field.
pub mod Minting
use Prim.Native.Nat.{◌+◌, ◌/◌, ◌%◌, ◌^◌}
use Prim.Native.String as Text
use text.Mathlib.Text.{starts_with}
use crypto_bot_quant.Base.{
  ℕ, zero, suc, Bool, true, false, not, String, Option, none, some, List, [], ◌∷◌, ◌||◌, ltb,
  str_eq, if◌then◌else◌,
}
use crypto_bot_quant.Base.Result.{Result, ok, raised, value_error}
use crypto_bot_quant.Base.Dict.{Dict, insert}

abbrev pub max_client_id_len : ℕ
max_client_id_len = 36

pub record OwnershipPolicy : Type 0 where
  pub prefix : String
  pub bot_instance_id : String
  pub strategy_version : String
  pub config_version : String
  pub session_token : String
  pub counter : ℕ

-- One decimal digit as a text.
abbrev digit : ℕ → String
digit zero = "0"
digit (suc zero) = "1"
digit (suc (suc zero)) = "2"
digit (suc (suc (suc zero))) = "3"
digit (suc (suc (suc (suc zero)))) = "4"
digit (suc (suc (suc (suc (suc zero))))) = "5"
digit (suc (suc (suc (suc (suc (suc zero)))))) = "6"
digit (suc (suc (suc (suc (suc (suc (suc zero))))))) = "7"
digit (suc (suc (suc (suc (suc (suc (suc (suc zero)))))))) = "8"
digit (suc (suc (suc (suc (suc (suc (suc (suc (suc n))))))))) = "9"

-- The last k decimal digits of n.
abbrev last_digits : ℕ → ℕ → String
last_digits zero n = ""
last_digits (suc k) n = Text.◌++◌ (last_digits k (n / 10)) (digit (n % 10))

-- How many digits n has beyond six, on fuel: n has at most n of them.
extra_digits : ℕ → ℕ → ℕ
extra_digits zero n = 0
extra_digits (suc fuel) n =
    let rest = suc (extra_digits fuel (n / 10)) in if ltb n 1000000 then 0 else rest

-- f"{n:06d}"
unfoldable pub pad6 : ℕ → String
unfolding extra_digits
pad6 n = last_digits (6 + extra_digits n n) n

-- `configured`
unfoldable pub configured : OwnershipPolicy → Bool
configured p = not (str_eq p.prefix "" || str_eq p.bot_instance_id "")

-- f"{self.prefix}{role}_{self._session_token}{seq:06d}"
unfoldable pub client_id_text : String → OwnershipPolicy → String
client_id_text role p =
    Text.◌++◌ p.prefix (Text.◌++◌ role (Text.◌++◌ "_" (Text.◌++◌ p.session_token (pad6 p.counter))))

-- `new_client_id`; `next(self._counter)` counts from 1.
unfoldable pub new_client_id : String → OwnershipPolicy → Result (String × OwnershipPolicy)
new_client_id role p =
    let cid = client_id_text role p in
    if ltb max_client_id_len (Text.count cid)
    then raised value_error
    else ok (cid, record p { counter = p.counter + 1 })

-- `is_own`
unfoldable pub is_own : OwnershipPolicy → Option String → Bool
is_own p none = false
is_own p (some client_id) =
    if str_eq client_id "" || str_eq p.prefix "" then false else starts_with client_id p.prefix

-- `tags`
unfoldable pub tags : OwnershipPolicy → Option String → Dict String
tags p parent_id =
    let base =
      ("bot_instance_id", p.bot_instance_id)
      ∷ ("strategy_version", p.strategy_version)
      ∷ ("config_version", p.config_version)
      ∷ [] in
    elim parent_id [ none ↦ base | some id ↦ insert "parent_id" id base ]
