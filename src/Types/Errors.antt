-- ===== src/Types/Errors.antt =====
-- The errors that the modelled operations return, one constructor for each message.
use comrad.Prelude.{ℕ, String}

pub data Error : Type 0 where
  slot_not_found : String → Error
  slot_not_owned : String → String → Error
  session_not_registered : Error
  node_mismatch : String → String → Error
  node_id_required : Error
  node_token_missing : String → Error
  node_token_required : String → Error
  attempt_id_required : Error
  attempt_not_found : String → Error
  attempt_not_owned : String → String → Error
  attempt_of_other_task : String → String → Error
  task_cancelled : Error
  slot_unavailable : Error
  insufficient_balance : Error
  user_id_required : Error
  user_not_found : String → Error
  user_exists : String → Error
  amount_is_zero : Error
  profile_not_found : Error
  profile_in_use : Error
  node_not_found : Error
  node_is_online : Error
  model_not_found : Error
  insufficient_context : Error
  is_negative : String → Error
  min_warm_above_max : Error
  min_cached_above_max : Error
  schema_is_newer : Error
  backend_failed : String → Error
  artifact_not_found : String → Error
  artifact_is_gone : Error
  artifact_in_use : String → Error
  artifact_not_cached : Error
  artifact_id_required : Error
  artifact_sha_mismatch : Error
  profile_missing : String → Error
  node_missing : String → Error
  slot_missing : String → Error
  arg_is_managed : String → Error
  is_required : String → Error
  kind_not_supported : Error
  variant_invalid : ℕ → Error → Error
  token_required : Error
  api_key_not_found : Error
  api_key_missing : String → Error
  unauthorized : Error
  action_unknown : Error
  worker_offline : Error
  session_registered : String → Error
