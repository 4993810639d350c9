-- ===== src/Types/Status.antt =====
-- internal/comrad/types.go: the constants of a node's, a slot's and a task's state. `other` is any
-- text that the constants do not name, since the states come over the wire as texts.
use comrad.Prelude.{String, Bool, true, false}

pub data NodeState : Type 0 where
  expected registered online offline disabled error : NodeState
  other : String → NodeState

pub data SlotState : Type 0 where
  unavailable idle download_queued downloading cached loading warming ready serving error :
      SlotState
  other : String → SlotState

pub data TaskStatus : Type 0 where
  queued running completed failed cancelled : TaskStatus
  other : String → TaskStatus

pub data Direction : Type 0 where
  debit credit : Direction
  other : String → Direction

abbrev pub is_online : NodeState → Bool
is_online NodeState.online = true
is_online _ = false

abbrev pub is_offline : NodeState → Bool
is_offline NodeState.offline = true
is_offline _ = false

abbrev pub is_disabled : NodeState → Bool
is_disabled NodeState.disabled = true
is_disabled _ = false

abbrev pub is_ready : SlotState → Bool
is_ready SlotState.ready = true
is_ready _ = false

abbrev pub is_serving : SlotState → Bool
is_serving SlotState.serving = true
is_serving _ = false

abbrev pub is_loading : SlotState → Bool
is_loading SlotState.loading = true
is_loading _ = false

abbrev pub is_warming : SlotState → Bool
is_warming SlotState.warming = true
is_warming _ = false

abbrev pub is_cached : SlotState → Bool
is_cached SlotState.cached = true
is_cached _ = false

abbrev pub is_unavailable : SlotState → Bool
is_unavailable SlotState.unavailable = true
is_unavailable _ = false

abbrev pub is_slot_error : SlotState → Bool
is_slot_error SlotState.error = true
is_slot_error _ = false

abbrev pub is_queued : TaskStatus → Bool
is_queued TaskStatus.queued = true
is_queued _ = false

abbrev pub is_running : TaskStatus → Bool
is_running TaskStatus.running = true
is_running _ = false

abbrev pub is_completed : TaskStatus → Bool
is_completed TaskStatus.completed = true
is_completed _ = false

abbrev pub is_failed : TaskStatus → Bool
is_failed TaskStatus.failed = true
is_failed _ = false

abbrev pub is_cancelled : TaskStatus → Bool
is_cancelled TaskStatus.cancelled = true
is_cancelled _ = false

-- The text of a task's status.
abbrev pub status_text : TaskStatus → String
status_text TaskStatus.queued = "queued"
status_text TaskStatus.running = "running"
status_text TaskStatus.completed = "completed"
status_text TaskStatus.failed = "failed"
status_text TaskStatus.cancelled = "cancelled"
status_text (TaskStatus.other s) = s

-- The failure reasons.
abbrev pub failure_unknown_requirements : String
failure_unknown_requirements = "unknown_requirements"

abbrev pub failure_target_unsupported : String
failure_target_unsupported = "target_unsupported"

abbrev pub failure_runtime_adapter_missing : String
failure_runtime_adapter_missing = "runtime_adapter_missing"

abbrev pub failure_resource_exhausted_ram : String
failure_resource_exhausted_ram = "resource_exhausted_ram"

abbrev pub failure_resource_exhausted_vram : String
failure_resource_exhausted_vram = "resource_exhausted_vram"

abbrev pub failure_resource_exhausted_disk : String
failure_resource_exhausted_disk = "resource_exhausted_disk"

abbrev pub failure_cancelled_by_client : String
failure_cancelled_by_client = "cancelled_by_client"

abbrev pub failure_worker_disconnected : String
failure_worker_disconnected = "worker_disconnected"

abbrev pub failure_quarantined : String
failure_quarantined = "quarantined"

abbrev pub failure_worker_flapping : String
failure_worker_flapping = "worker_flapping"

abbrev pub target_darwin_arm64_metal : String
target_darwin_arm64_metal = "darwin-arm64-metal"
