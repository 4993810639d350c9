-- ===== src/Types/Profiles.antt =====
-- internal/comrad/types.go: workload profiles, placement policies, assignments and fit results.
use comrad.Prelude.{String, Bool, false, List, [], Option, none, Int64}
use comrad.Prelude.Dict.{Dict}
use comrad.Types.Nodes.{Time, zero_time}

pub record Requirements : Type 0 where
  pub target : String
  pub runtime_adapter : String
  pub ram_bytes : Int64
  pub vram_bytes : Int64
  pub unified_memory_bytes : Int64
  pub disk_bytes : Int64
  pub require_tags : List String
  pub minimum_worker : String

pub record LlmProfile : Type 0 where
  pub context_tokens : Int64

pub record LlamaCppParameters : Type 0 where
  pub args : List String

pub record RuntimeParameters : Type 0 where
  pub llama_cpp : LlamaCppParameters

pub record RuntimeModelVariant : Type 0 where
  pub id : String
  pub name : String
  pub target : String
  pub runtime_adapter : String
  pub artifacts : List String
  pub requirements : Option Requirements
  pub llm : Option LlmProfile
  pub runtime : RuntimeParameters
  pub metadata : Dict String

pub record WorkloadProfile : Type 0 where
  pub id : String
  pub version : Int64
  pub name : String
  pub alias : String
  pub logical_model : String
  pub runtime_variant_id : String
  pub kind : String
  pub runtime_adapter : String
  pub artifacts : List String
  pub requirements : Option Requirements
  pub llm : Option LlmProfile
  pub runtime : RuntimeParameters
  pub runtime_variants : List RuntimeModelVariant
  pub compute_cost : Int64
  pub warmable : Bool
  pub max_concurrency_per_slot : Int64
  pub created_at : Time

pub record PlacementConstraints : Type 0 where
  pub require_tags : List String
  pub prefer_nodes : List String
  pub deny_nodes : List String

pub record PlacementPolicy : Type 0 where
  pub id : String
  pub profile_id : String
  pub cached_count : Int64
  pub warm_count : Int64
  pub auto_balance : Bool
  pub min_cached_count : Int64
  pub max_cached_count : Int64
  pub min_warm_count : Int64
  pub max_warm_count : Int64
  pub max_cached_profiles_per_node : Int64
  pub max_warm_profiles_per_node : Int64
  pub effective_cached_count : Int64
  pub effective_warm_count : Int64
  pub demand_queued : Int64
  pub demand_running : Int64
  pub demand_recent : Int64
  pub demand_smoothed : Int64
  pub constraints : PlacementConstraints
  pub hard_pinned_slots : List String
  pub created_at : Time
  pub updated_at : Time

pub record PlacementAssignment : Type 0 where
  pub id : String
  pub profile_id : String
  pub logical_model : String
  pub runtime_variant_id : String
  pub model_artifact_id : String
  pub model_sha256 : String
  pub node_id : String
  pub slot_id : String
  pub desired_cached : Bool
  pub desired_warm : Bool
  pub actual_cached : Bool
  pub actual_warm : Bool
  pub is_ready : Bool
  pub draining : Bool
  pub mismatch_reason : String
  pub updated_at : Time

pub record FitResult : Type 0 where
  pub profile_id : String
  pub logical_model : String
  pub runtime_variant_id : String
  pub slot_id : String
  pub node_id : String
  pub fits : Bool
  pub reasons : List String

abbrev pub zero_runtime : RuntimeParameters
zero_runtime = record { llama_cpp = record { args = [] } }

abbrev pub zero_profile : WorkloadProfile
zero_profile = record {
  id = "";
  version = 0;
  name = "";
  alias = "";
  logical_model = "";
  runtime_variant_id = "";
  kind = "";
  runtime_adapter = "";
  artifacts = [];
  requirements = none;
  llm = none;
  runtime = zero_runtime;
  runtime_variants = [];
  compute_cost = 0;
  warmable = false;
  max_concurrency_per_slot = 0;
  created_at = zero_time;
}

abbrev pub zero_assignment : PlacementAssignment
zero_assignment = record {
  id = "";
  profile_id = "";
  logical_model = "";
  runtime_variant_id = "";
  model_artifact_id = "";
  model_sha256 = "";
  node_id = "";
  slot_id = "";
  desired_cached = false;
  desired_warm = false;
  actual_cached = false;
  actual_warm = false;
  is_ready = false;
  draining = false;
  mismatch_reason = "";
  updated_at = zero_time;
}

abbrev pub zero_fit : FitResult
zero_fit = record {
  profile_id = "";
  logical_model = "";
  runtime_variant_id = "";
  slot_id = "";
  node_id = "";
  fits = false;
  reasons = [];
}
