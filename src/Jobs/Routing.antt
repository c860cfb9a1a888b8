-- ===== src/Jobs/Routing.antt =====
-- src/jobs/routing.py: the class of a job and the keys of the lists in Redis.
use Prim.Native.Nat.{◌-◌}
use Prim.Native.String as Text
use text.Mathlib.Text.{starts_with}
use crypto_bot_quant.Base.{
  Bool, String, List, [], ◌∷◌, ◌++◌, ◌&&◌, ◌||◌, str_eq, any, if◌then◌else◌, elem,
}

abbrev pub all_classes : List String
all_classes = "ml" ∷ "rl" ∷ "backtest" ∷ "live" ∷ "data" ∷ "gates" ∷ "default" ∷ []

-- `_CLASS_MEMBERS`
abbrev pub class_members : List (String × List String)
class_members =
    ("ml", "build_ml_" ∷ "train_ml_" ∷ "run_ml_" ∷ "run_lake_ml_" ∷ "evaluate_ml_models" ∷ [])
    ∷ ("rl", "train_rl_" ∷ "run_rl_" ∷ "simulate_rl_" ∷ "rl_" ∷ [])
    ∷ (
      "live",
      "run_live_session" ∷ "run_basket_paper_session" ∷ "run_basket_demo_session"
          ∷ "reset_env_stats" ∷ [],
    )
    ∷ (
      "backtest",
      "run_backtest" ∷ "run_lake_backtest" ∷ "run_paper_session" ∷ "run_lake_paper_session"
          ∷ "run_walk_forward" ∷ "build_dataset_version" ∷ "run_strategy_validation"
          ∷ "run_lake_strategy_validation" ∷ [],
    )
    ∷ (
      "data",
      "download_" ∷ "repair_" ∷ "validate_data_quality" ∷ "sync_exchange_metadata"
          ∷ "verify_exchange_metadata" ∷ "build_symbol_universe" ∷ "build_feature_store"
          ∷ "run_feature_leakage_test" ∷ [],
    )
    ∷ ("gates", "run_gate" ∷ "run_all_gates" ∷ "run_backup_check" ∷ "run_restore_test_check" ∷ [])
    ∷ []

-- `m.endswith("_")`
abbrev pub ends_in_underscore : String → Bool
ends_in_underscore m = str_eq (Text.slice m (Text.len m - 1) (Text.len m)) "_"

abbrev pub is_member : String → String → Bool
is_member job_type m = str_eq job_type m || (ends_in_underscore m && starts_with job_type m)

unfoldable pub class_in : String → List (String × List String) → String
class_in job_type [] = "default"
class_in job_type ((cls, members) ∷ rest) =
    let later = class_in job_type rest in if any (is_member job_type) members then cls else later

unfoldable pub queue_class : String → String
queue_class job_type = class_in job_type class_members

abbrev pub queue_key : String → String
queue_key cls = Text.◌++◌ "qbot:queue:" cls

-- A text in lower case without the blanks around it is an argument of its reader.
unfoldable pub valid_classes : List String → List String → List String
valid_classes out [] = out
valid_classes out (c ∷ cs) =
    let kept = valid_classes (out ++ (c ∷ [])) cs in
    let left = valid_classes out cs in
    if elem c all_classes then (if elem c out then left else kept) else left

-- `parse_queue_classes`, on the parts between the commas, trimmed and in lower case.
unfoldable pub parse_queue_classes : List String → List String
parse_queue_classes parts = elim (valid_classes [] parts) [ [] ↦ all_classes | c ∷ cs ↦ c ∷ cs ]
