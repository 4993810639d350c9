-- ===== src/Sessions.antt =====
-- The sessions of workers: internal/comrad/manager_worker_heartbeat.go, `upsertWorkerState` and
-- `handleWorkerHeartbeat` of manager_worker_messages.go, and the closing of a session in manager_ws.go.
-- A session is known by its id; the manager holds one for each node. Durations are in nanoseconds.
use comrad.Prelude.{
  ℕ, ◌-◌, String, not, ◌&&◌, ◌||◌, List, [], ◌∷◌, Option, none, some, eqb, ◌==◌, if◌then◌else◌,
}
use comrad.Prelude.Dict.{Dict, lookup, get_or, insert, delete, values}
use comrad.Types.{
  Time, Node, NodeState, Slot, Error, is_online, after, zero_node, session_registered,
}
use comrad.Store.{Database, add_audit}
use comrad.Flapping.{ManagerConfig, record_worker_flap_event, worker_reconnect_event_applies}
use comrad.WorkerState.{normalize_worker_node, merge_existing_node, upsert_worker_slots}
use comrad.Security.{authorize_worker_node}
use comrad.Attempts.Disconnect.{mark_disconnected_node, fail_running_attempts}

-- The session of each connected node.
abbrev pub Sessions : Type 0
Sessions = Dict String

-- The stale nodes that have a session, with it, and those that have none.
unfoldable pub stale_worker_sessions :
    Sessions → Time → List Node → List (String × String) × List String
stale_worker_sessions sessions cutoff [] = ([], [])
stale_worker_sessions sessions cutoff (node ∷ nodes) =
    let (with_session, offline) = stale_worker_sessions sessions cutoff nodes in
    if not (is_online node.state) || after node.last_seen cutoff
    then (with_session, offline)
    else elim (lookup node.id sessions) [
      | none ↦ (with_session, node.id ∷ offline)
      | some session ↦ ((node.id, session) ∷ with_session, offline)
    ]

unfoldable pub mark_offline_workers :
    List String → String → Time → ManagerConfig → Database → Database
mark_offline_workers [] event now cfg db = db
mark_offline_workers (id ∷ ids) event now cfg db =
    let node = get_or zero_node id db.nodes in
    mark_offline_workers ids event now cfg (
      if node.id == ""
      then db
      else mark_disconnected_node (record_worker_flap_event node event now cfg) db)

unfoldable pub remove_session : String → String → Sessions → Sessions
remove_session node session sessions =
    if get_or "" node sessions == session then delete node sessions else sessions

-- What `closeWithFlapEvent` does the first time, for a session that has a node.
unfoldable pub close_with_flap_event :
    ManagerConfig → String → String → String → Time → Sessions × Database → Sessions × Database
close_with_flap_event cfg node session event now (sessions, db) =
    (remove_session node session sessions, fail_running_attempts cfg node session event now db)

unfoldable pub close_sessions :
    ManagerConfig
    → List (String × String)
    → String
    → Time
    → Sessions × Database
    → Sessions × Database
close_sessions cfg [] event now state = state
close_sessions cfg ((node, session) ∷ rest) event now state =
    close_sessions cfg rest event now (close_with_flap_event cfg node session event now state)

abbrev pub heartbeat_expired : String
heartbeat_expired = "heartbeat_expired"

-- `expireWorkerHeartbeats`, below the planning that it starts; a timeout of 0 turns it off.
unfoldable pub expire_worker_heartbeats :
    ManagerConfig → ℕ → Time → Sessions × Database → Sessions × Database
expire_worker_heartbeats cfg timeout now (sessions, db) =
    let (stale, offline) = stale_worker_sessions sessions (now - timeout) (values db.nodes) in
    let (left, failed) = close_sessions cfg stale heartbeat_expired now (sessions, db) in
    if eqb timeout 0
    then (sessions, db)
    else (left, mark_offline_workers offline heartbeat_expired now cfg failed)

-- `handleWorkerHeartbeat`, on the node of the session.
unfoldable pub handle_worker_heartbeat : String → Time → Database → Database
handle_worker_heartbeat node_id now db =
    let node = record (get_or zero_node node_id db.nodes) {
      last_seen = now;
      state = NodeState.online;
    } in
    if node_id == "" then db else record db { nodes = insert node.id node db.nodes }

-- What a worker says of itself: `cached` and `warm` are nil in a hello.
pub record WorkerReport : Type 0 where
  pub node : Node
  pub slots : List Slot
  pub cached : Option (List String)
  pub warm : Option (List String)
  pub node_token : String

module _ (digest : String → String) where
  -- The writes of a worker that is let in, below its token.
  unfoldable pub worker_registered :
      ManagerConfig → String → Node → List Slot → Time → Database → Database
  worker_registered cfg session node slots now db =
      let existing = get_or zero_node node.id db.nodes in
      let merged = merge_existing_node node existing cfg.auto_approve now in
      let flapped =
        if worker_reconnect_event_applies existing session
        then record_worker_flap_event merged "reconnect" now cfg
        else merged in
      add_audit "worker.connected" "worker" flapped.id now (
        upsert_worker_slots flapped now slots
          (record db { nodes = insert flapped.id flapped db.nodes }))

  registered_unless : Option Error → Database → Database → Database × Option Error
  registered_unless none db written = (written, none)
  registered_unless (some e) db written = (db, some e)

  -- The callback of `upsertWorkerState` below the check of the session's node: the database, the token
  -- that is given out, and the error. `fresh` and `token` are what NewID gives.
  unfoldable pub upsert_worker_state :
      ManagerConfig
      → String
      → String
      → String
      → String
      → WorkerReport
      → Time
      → Database
      → Database × String × Option Error
  unfolding registered_unless
  upsert_worker_state cfg fresh token session session_node report now db =
      let node = normalize_worker_node fresh report.node session report.cached report.warm now in
      let (known, given, refusal) =
        authorize_worker_node digest token session_node node.id report.node_token db in
      let (after, err) =
        registered_unless refusal known
          (worker_registered cfg session node report.slots now known) in
      if not (session_node == "") && not (session_node == node.id)
      then (db, "", some (session_registered session_node))
      else (after, given, err)
