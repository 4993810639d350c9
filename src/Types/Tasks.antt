-- ===== src/Types/Tasks.antt =====
-- internal/comrad/types.go: tasks, attempts, reports and the audit trail. A report's timing and
-- runtime measurements, which are only stored and shown, are left out.
use comrad.Prelude.{String, Bool, false, List, [], Option, none, Int64}
use comrad.Types.Nodes.{Time, zero_time}
use comrad.Types.Status.{TaskStatus}

pub record Task : Type 0 where
  pub id : String
  pub user_id : String
  pub kind : String
  pub model : String
  pub profile_id : String
  pub profile_version : Int64
  pub logical_model : String
  pub runtime_variant_id : String
  pub compute_cost : Int64
  pub failed_slots : List String
  pub min_context_tokens : Int64
  pub status : TaskStatus
  pub failure_reason : String
  pub stream : Bool
  pub created_at : Time
  pub updated_at : Time
  pub completed_at : Option Time

pub record Attempt : Type 0 where
  pub id : String
  pub task_id : String
  pub user_id : String
  pub node_id : String
  pub slot_id : String
  pub profile_id : String
  pub profile_version : Int64
  pub logical_model : String
  pub runtime_variant_id : String
  pub runtime_adapter : String
  pub compute_cost : Int64
  pub status : TaskStatus
  pub phase : String
  pub failure_reason : String
  pub can_retry : Bool
  pub first_output_sent : Bool
  pub lease_expires_at : Time
  pub started_at : Time
  pub first_output_at : Option Time
  pub completed_at : Option Time

pub record ComputeReport : Type 0 where
  pub id : String
  pub task_id : String
  pub attempt_id : String
  pub user_id : String
  pub node_id : String
  pub slot_id : String
  pub profile_id : String
  pub profile_version : Int64
  pub logical_model : String
  pub runtime_variant_id : String
  pub runtime_adapter : String
  pub compute_cost : Int64
  pub status : TaskStatus
  pub phase : String
  pub failure_reason : String
  pub can_retry : Bool
  pub cancelled : Bool
  pub created_at : Time

pub record AuditEvent : Type 0 where
  pub kind : String
  pub actor : String
  pub subject : String
  pub created_at : Time

abbrev pub zero_task : Task
zero_task = record {
  id = "";
  user_id = "";
  kind = "";
  model = "";
  profile_id = "";
  profile_version = 0;
  logical_model = "";
  runtime_variant_id = "";
  compute_cost = 0;
  failed_slots = [];
  min_context_tokens = 0;
  status = TaskStatus.other "";
  failure_reason = "";
  stream = false;
  created_at = zero_time;
  updated_at = zero_time;
  completed_at = none;
}

abbrev pub zero_attempt : Attempt
zero_attempt = record {
  id = "";
  task_id = "";
  user_id = "";
  node_id = "";
  slot_id = "";
  profile_id = "";
  profile_version = 0;
  logical_model = "";
  runtime_variant_id = "";
  runtime_adapter = "";
  compute_cost = 0;
  status = TaskStatus.other "";
  phase = "";
  failure_reason = "";
  can_retry = false;
  first_output_sent = false;
  lease_expires_at = zero_time;
  started_at = zero_time;
  first_output_at = none;
  completed_at = none;
}
