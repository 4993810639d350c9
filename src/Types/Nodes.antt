-- ===== src/Types/Nodes.antt =====
-- internal/comrad/types.go: nodes, slots and artifacts. A `time.Time` is the nanoseconds since Go's
-- zero time, so 0 is the zero time; a `*time.Time` is an `Option`. A counter that the manager only
-- increments from 0 is an unbounded number.
use comrad.Prelude.{ℕ, String, Bool, false, List, [], Option, none, Int64, ltb}
use comrad.Prelude.Dict.{Dict}
use comrad.Types.Status.{NodeState, SlotState}

abbrev pub Time : Type 0
Time = ℕ

abbrev pub zero_time : Time
zero_time = 0

-- `a.After(b)` and `a.Before(b)`.
abbrev pub after : Time → Time → Bool
after a b = ltb b a

abbrev pub before : Time → Time → Bool
before a b = ltb a b

pub record ResourceBudget : Type 0 where
  pub ram_bytes : Int64
  pub vram_bytes : Int64
  pub unified_memory_bytes : Int64
  pub disk_bytes : Int64
  pub slot_count : Int64

pub record DownloadPressure : Type 0 where
  pub max_concurrent : Int64
  pub active : Int64
  pub queued : Int64

pub record WorkerP2pStatus : Type 0 where
  pub available : Bool
  pub port : Int64
  pub max_uploads : Int64
  pub download_timeout_seconds : Int64
  pub seeding_count : Int64
  pub downloading_count : Int64
  pub peer_count : Int64
  pub fallback_count : Int64
  pub last_failure : String
  pub last_failure_at : Option Time

pub record WorkerFlapEvent : Type 0 where
  pub kind : String
  pub at : Time

pub record Node : Type 0 where
  pub id : String
  pub owner_user_id : String
  pub name : String
  pub os : String
  pub arch : String
  pub target : String
  pub mode : String
  pub tags : List String
  pub state : NodeState
  pub version : String
  pub runtime_adapters : List String
  pub budgets : ResourceBudget
  pub download_pressure : DownloadPressure
  pub p2p : Option WorkerP2pStatus
  pub cached_artifacts : List String
  pub warm_profiles : List String
  pub last_seen : Time
  pub approved : Bool
  pub update_required : Bool
  pub update_status : String
  pub last_failure : String
  pub last_failure_at : Option Time
  pub quarantined : Bool
  pub quarantine_reason : String
  pub quarantine_until : Option Time
  pub recent_flap_events : List WorkerFlapEvent
  pub warm_placement_suppressed : Bool
  pub warm_placement_suppression_reason : String
  pub warm_placement_suppression_until : Option Time
  pub connected_session : String

pub record Slot : Type 0 where
  pub id : String
  pub node_id : String
  pub target : String
  pub runtime_adapter : String
  pub resources : ResourceBudget
  pub state : SlotState
  pub profile_id : String
  pub profile_version : Int64
  pub logical_model : String
  pub runtime_variant_id : String
  pub model_artifact_id : String
  pub model_sha256 : String
  pub active_task_id : String
  pub accepts_new : Bool
  pub mismatch_reason : String
  pub last_ready : Time
  pub last_task_at : Time
  pub failure_count : ℕ
  pub failure_counters : Dict ℕ
  pub last_failure : String
  pub last_failure_at : Option Time
  pub quarantined : Bool
  pub quarantine_reason : String
  pub quarantine_until : Option Time

-- The torrent of an artifact, which only the transfer code reads, is left out.
pub record Artifact : Type 0 where
  pub id : String
  pub kind : String
  pub name : String
  pub path : String
  pub sha256 : String
  pub size_bytes : Int64
  pub created_at : Time

abbrev pub zero_budget : ResourceBudget
zero_budget = record {
  ram_bytes = 0;
  vram_bytes = 0;
  unified_memory_bytes = 0;
  disk_bytes = 0;
  slot_count = 0;
}

abbrev pub zero_node : Node
zero_node = record {
  id = "";
  owner_user_id = "";
  name = "";
  os = "";
  arch = "";
  target = "";
  mode = "";
  tags = [];
  state = NodeState.other "";
  version = "";
  runtime_adapters = [];
  budgets = zero_budget;
  download_pressure = record { max_concurrent = 0; active = 0; queued = 0 };
  p2p = none;
  cached_artifacts = [];
  warm_profiles = [];
  last_seen = zero_time;
  approved = false;
  update_required = false;
  update_status = "";
  last_failure = "";
  last_failure_at = none;
  quarantined = false;
  quarantine_reason = "";
  quarantine_until = none;
  recent_flap_events = [];
  warm_placement_suppressed = false;
  warm_placement_suppression_reason = "";
  warm_placement_suppression_until = none;
  connected_session = "";
}

abbrev pub zero_slot : Slot
zero_slot = record {
  id = "";
  node_id = "";
  target = "";
  runtime_adapter = "";
  resources = zero_budget;
  state = SlotState.other "";
  profile_id = "";
  profile_version = 0;
  logical_model = "";
  runtime_variant_id = "";
  model_artifact_id = "";
  model_sha256 = "";
  active_task_id = "";
  accepts_new = false;
  mismatch_reason = "";
  last_ready = zero_time;
  last_task_at = zero_time;
  failure_count = 0;
  failure_counters = [];
  last_failure = "";
  last_failure_at = none;
  quarantined = false;
  quarantine_reason = "";
  quarantine_until = none;
}

abbrev pub zero_artifact : Artifact
zero_artifact = record {
  id = "";
  kind = "";
  name = "";
  path = "";
  sha256 = "";
  size_bytes = 0;
  created_at = zero_time;
}
