-- ===== src/Flapping.antt =====
-- internal/comrad/manager_worker_flapping.go: a worker that comes and goes too often gets no warm
-- placement for a while. A configured value that is not positive is 0.
pub mod Window
use comrad.Prelude.{
  ℕ, ◌+◌, String, Bool, true, false, ◌&&◌, ◌||◌, not, List, [], ◌∷◌, ◌++◌, Option, none, some, ltb,
  leb, eqb, ◌==◌, if◌then◌else◌, length, keep, any,
}
use comrad.Prelude.Dict.{map_values, values}
use comrad.Types.{Time, Node, WorkerFlapEvent, after, is_online, failure_worker_flapping}
use comrad.Store.{Database}

-- What `ManagerConfig` holds for the parts that are modelled.
pub record ManagerConfig : Type 0 where
  pub auto_approve : Bool
  pub worker_flap_threshold : ℕ
  pub worker_flap_window : ℕ
  pub worker_flap_cooldown : ℕ
  pub quarantine_threshold : ℕ
  pub quarantine_duration : ℕ
  pub auto_balance_scale_down_cooldown : ℕ

abbrev pub five_minutes : ℕ
five_minutes = 300000000000

unfoldable pub worker_flap_threshold : ManagerConfig → ℕ
worker_flap_threshold cfg = if eqb cfg.worker_flap_threshold 0 then 4 else cfg.worker_flap_threshold

unfoldable pub worker_flap_window : ManagerConfig → ℕ
worker_flap_window cfg =
    if eqb cfg.worker_flap_window 0 then five_minutes else cfg.worker_flap_window

unfoldable pub worker_flap_cooldown : ManagerConfig → ℕ
worker_flap_cooldown cfg =
    if eqb cfg.worker_flap_cooldown 0 then five_minutes else cfg.worker_flap_cooldown

-- `event.At.Before(now.Add(-window))`.
abbrev pub too_old : Time → ℕ → WorkerFlapEvent → Bool
too_old now window event = ltb (event.at + window) now

unfoldable pub prune_worker_flap_events : List WorkerFlapEvent → Time → ℕ → List WorkerFlapEvent
prune_worker_flap_events events now window = keep (λ e. not (too_old now window e)) events

unfoldable pub record_worker_flap_event : Node → String → Time → ManagerConfig → Node
record_worker_flap_event node event_type now cfg =
    let events =
      prune_worker_flap_events node.recent_flap_events now (worker_flap_window cfg)
      ++ record { kind = event_type; at = now } ∷ [] in
    let node' = record node { recent_flap_events = events } in
    if event_type == ""
    then node
    else if leb (worker_flap_threshold cfg) (length events)
    then record node' {
      warm_placement_suppressed = true;
      warm_placement_suppression_reason = failure_worker_flapping;
      warm_placement_suppression_until = some (now + worker_flap_cooldown cfg);
    }
    else node'

unfoldable pub worker_reconnect_event_applies : Node → String → Bool
worker_reconnect_event_applies existing session =
    if existing.id == ""
    then false
    else if not (is_online existing.state)
    then true
    else not (existing.connected_session == session)

-- `until != nil && until.After(now)`.
abbrev pub is_after : Option Time → Time → Bool
is_after none now = false
is_after (some t) now = after t now

unfoldable pub node_warm_placement_suppressed : Node → Time → Bool
node_warm_placement_suppressed node now =
    node.warm_placement_suppressed && is_after node.warm_placement_suppression_until now

-- `clearExpiredWorkerSuppression`; whether it cleared anything is not used by its callers here.
unfoldable pub clear_expired_worker_suppression : Node → Time → Node
clear_expired_worker_suppression node now =
    if not node.warm_placement_suppressed
    then node
    else if is_after node.warm_placement_suppression_until now
    then node
    else record node {
      warm_placement_suppressed = false;
      warm_placement_suppression_reason = "";
      warm_placement_suppression_until = none;
    }

unfoldable pub maintain_node : Time → ManagerConfig → Node → Node
maintain_node now cfg node =
    clear_expired_worker_suppression
      (record node {
        recent_flap_events =
            prune_worker_flap_events node.recent_flap_events now (worker_flap_window cfg);
      })
      now

-- The function `clearExpiredWorkerSuppressions` on the database.
unfoldable pub clear_expired_suppressions : Time → ManagerConfig → Database → Database
clear_expired_suppressions now cfg db = record db {
  nodes = map_values (maintain_node now cfg) db.nodes;
}

unfoldable pub node_needs_maintenance : Time → ManagerConfig → Node → Bool
node_needs_maintenance now cfg node =
    (node.warm_placement_suppressed && not (node_warm_placement_suppressed node now))
    || any (too_old now (worker_flap_window cfg)) node.recent_flap_events

unfoldable pub needs_worker_flap_maintenance : Time → ManagerConfig → Database → Bool
needs_worker_flap_maintenance now cfg db = any (node_needs_maintenance now cfg) (values db.nodes)

-- The manager's `clearExpiredWorkerSuppressions`, which writes only if there is work.
unfoldable pub maintain_suppressions : Time → ManagerConfig → Database → Database
maintain_suppressions now cfg db =
    if needs_worker_flap_maintenance now cfg db then clear_expired_suppressions now cfg db else db
