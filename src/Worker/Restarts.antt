-- ===== src/Worker/Restarts.antt =====
-- internal/comrad/worker_runtime.go: the servers of a worker's slots, and their restarts. Starting a
-- process and asking for its health are outside: what they report is an argument.
use comrad.Prelude.{ℕ, suc, String, Bool, true, false, Option, none, some, leb, if◌then◌else◌}
use comrad.Prelude.Dict.{get_or, insert, delete}
use comrad.Types.{SlotState, WorkloadProfile}
use comrad.Worker.{WorkerModel, assignment_key, set_slot_state}
use comrad.Worker.Assignments.{runtime_server_ready}

-- `maxRuntimeRestartAttempts`.
abbrev pub max_runtime_restart_attempts : ℕ
max_runtime_restart_attempts = 3

unfoldable pub stop_runtime_server : String → WorkerModel → WorkerModel
stop_runtime_server slot_id w = record w { runtimes = delete slot_id w.runtimes }

unfoldable pub server_started :
    Option String → String → WorkloadProfile → Bool → WorkerModel → WorkerModel × Option String
server_started (some e) slot_id profile reset w = (w, some e)
server_started none slot_id profile reset w = (
  record w {
    runtimes =
        insert slot_id (record { profile_key = assignment_key profile; alive = true }) w.runtimes;
    warm = insert (assignment_key profile) profile w.warm;
    runtime_restarts = if reset then insert slot_id 0 w.runtime_restarts else w.runtime_restarts;
  },
  none,
)

-- `startRuntimeServerForSlot`; `failed` is what startLlamaServer reports.
unfoldable pub start_runtime_server_for_slot :
    Option String → String → WorkloadProfile → Bool → WorkerModel → WorkerModel × Option String
unfolding server_started
start_runtime_server_for_slot failed slot_id profile reset w =
    server_started failed slot_id profile reset (stop_runtime_server slot_id w)

unfoldable pub ensure_runtime_server :
    Option String → String → WorkloadProfile → WorkerModel → WorkerModel × Option String
ensure_runtime_server failed slot_id profile w =
    if runtime_server_ready slot_id (assignment_key profile) w
    then (w, none)
    else start_runtime_server_for_slot failed slot_id profile true w

unfoldable pub reserve_runtime_restart : String → WorkerModel → WorkerModel × Bool
reserve_runtime_restart slot_id w =
    let used = get_or 0 slot_id w.runtime_restarts in
    if leb max_runtime_restart_attempts used
    then (w, false)
    else (record w { runtime_restarts = insert slot_id (suc used) w.runtime_restarts }, true)

unfoldable pub ready_unless : String → WorkloadProfile → WorkerModel × Option String → WorkerModel
ready_unless slot_id profile (w, none) = set_slot_state slot_id SlotState.ready profile.id "" w
ready_unless slot_id profile (w, some e) = set_slot_state slot_id SlotState.error profile.id e w

-- A restart that may be reserved: the state of the slot while it runs, and what `failed` makes of it.
unfoldable pub restarted :
    Option String → String → WorkloadProfile → String → WorkerModel → WorkerModel
unfolding ready_unless
restarted failed slot_id profile reason w = ready_unless slot_id profile (
    start_runtime_server_for_slot failed slot_id profile false
      (set_slot_state slot_id SlotState.warming profile.id reason w))

unfoldable pub restart_or_stop :
    Option String → String → WorkloadProfile → String → WorkerModel × Bool → WorkerModel
unfolding restarted
restart_or_stop failed slot_id profile reason (w, true) = restarted failed slot_id profile reason w
restart_or_stop failed slot_id profile reason (w, false) =
    set_slot_state slot_id SlotState.error profile.id "llama-server restart limit reached"
      (stop_runtime_server slot_id w)

-- `healthy` is what `runtimeServerHealthy` finds.
unfoldable pub recover_runtime_slot :
    Bool → Option String → String → WorkloadProfile → String → WorkerModel → WorkerModel
unfolding restart_or_stop
recover_runtime_slot healthy failed slot_id profile reason w =
    if healthy
    then set_slot_state slot_id SlotState.ready profile.id "" w
    else restart_or_stop failed slot_id profile reason (reserve_runtime_restart slot_id w)
