-- ===== src/Scenarios.antt =====
-- Concrete data of the records of internal/comrad/types.go, at which the theorems are applied.
pub mod Accounts
pub mod Admin
pub mod Placement
pub mod Work
pub mod Workers
use comrad.Prelude.{String, true, false, [], ◌∷◌, none, some}
use comrad.Types.{
  Node, NodeState, Slot, SlotState, Task, TaskStatus, Attempt, ComputeReport, WorkloadProfile,
  PlacementPolicy, Requirements, zero_node, zero_slot, zero_task, zero_attempt, zero_profile,
  zero_budget,
}
use comrad.Store.{Database}
use comrad.Flapping.{ManagerConfig}
use comrad.Plan.{PolicyPlanItem}

abbrev pub base : Database
base = record {
  schema_version = 3;
  migrations = 3 ∷ [];
  settings = record { p2p_enabled = true };
  nodes = [];
  slots = [];
  artifacts = [];
  artifact_evictions = [];
  cache_intents = [];
  profiles = [];
  policies = [];
  assignments = [];
  tasks = [];
  attempts = [];
  reports = [];
  users = [];
  api_keys = [];
  node_token_hashes = [];
  updates = [];
  compute_ledger = [];
  audit = [];
}

abbrev pub config : ManagerConfig
config = record {
  auto_approve = false;
  worker_flap_threshold = 1;
  worker_flap_window = 100;
  worker_flap_cooldown = 50;
  quarantine_threshold = 2;
  quarantine_duration = 60;
  auto_balance_scale_down_cooldown = 0;
}

abbrev pub gpu_node : Node
gpu_node = record zero_node {
  id = "n1";
  name = "gpu";
  owner_user_id = "bob";
  state = NodeState.online;
  approved = true;
  runtime_adapters = "llama.cpp" ∷ [];
  budgets = record zero_budget { disk_bytes = 100; ram_bytes = 64 };
}

abbrev pub needs : Requirements
needs = record {
  target = "";
  runtime_adapter = "";
  ram_bytes = 16;
  vram_bytes = 0;
  unified_memory_bytes = 0;
  disk_bytes = 40;
  require_tags = [];
  minimum_worker = "";
}

abbrev pub embed_profile : WorkloadProfile
embed_profile = record zero_profile {
  id = "p1";
  version = 1;
  logical_model = "m";
  kind = "embed";
  requirements = some needs;
  compute_cost = 5;
}

abbrev pub ready_slot : Slot
ready_slot = record zero_slot {
  id = "s1";
  node_id = "n1";
  state = SlotState.ready;
  accepts_new = true;
  profile_id = "p1";
  profile_version = 1;
  logical_model = "m";
  runtime_variant_id = "v1";
}

abbrev pub queued_task : Task
queued_task = record zero_task {
  id = "t1";
  user_id = "alice";
  profile_id = "p1";
  compute_cost = 5;
  status = TaskStatus.queued;
  created_at = 10;
}

abbrev pub running_attempt : Attempt
running_attempt = record zero_attempt {
  id = "a1";
  task_id = "t1";
  user_id = "alice";
  node_id = "n1";
  slot_id = "s1";
  profile_id = "p1";
  compute_cost = 5;
  status = TaskStatus.running;
}

abbrev pub finished : ComputeReport
finished = record {
  id = "r1";
  task_id = "t1";
  attempt_id = "a1";
  user_id = "alice";
  node_id = "n1";
  slot_id = "s1";
  profile_id = "p1";
  profile_version = 1;
  logical_model = "m";
  runtime_variant_id = "v1";
  runtime_adapter = "";
  compute_cost = 5;
  status = TaskStatus.completed;
  phase = "done";
  failure_reason = "";
  can_retry = false;
  cancelled = false;
  created_at = 20;
}

abbrev pub site : Database
site = record base {
  nodes = ("n1", gpu_node) ∷ [];
  slots = ("s1", ready_slot) ∷ [];
  profiles = ("p1", embed_profile) ∷ [];
  tasks = ("t1", queued_task) ∷ [];
}

abbrev pub warm_policy : PlacementPolicy
warm_policy = record {
  id = "pol1";
  profile_id = "p1";
  cached_count = 1;
  warm_count = 3;
  auto_balance = true;
  min_cached_count = 0;
  max_cached_count = 0;
  min_warm_count = 0;
  max_warm_count = 2;
  max_cached_profiles_per_node = 0;
  max_warm_profiles_per_node = 0;
  effective_cached_count = 0;
  effective_warm_count = 0;
  demand_queued = 0;
  demand_running = 0;
  demand_recent = 0;
  demand_smoothed = 0;
  constraints = record { require_tags = []; prefer_nodes = []; deny_nodes = [] };
  hard_pinned_slots = "s1" ∷ [];
  created_at = 0;
  updated_at = 0;
}

abbrev pub warm_item : PolicyPlanItem
warm_item = record {
  profile = embed_profile;
  policy = warm_policy;
  capacity = record {
    cached = 2;
    warm = 2;
    min_cached = 1;
    min_warm = 1;
    demand_queued = 0;
    demand_running = 0;
    demand_recent = 0;
    demand_smoothed = 0;
  };
  scarcity = 1;
  size = 56;
  demand = 0;
}
