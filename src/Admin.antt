-- ===== src/Admin.antt =====
-- What an administrator does to nodes, slots and settings, and what workers say of software updates:
-- internal/comrad/manager_admin.go and manager_worker_updates.go. Each operation is the callback of
-- its `store.Update`.
pub mod Unban
use comrad.Prelude.{
  String, Bool, true, false, not, ◌&&◌, ◌||◌, List, [], ◌∷◌, Option, none, some, ◌==◌,
  if◌then◌else◌,
}
use comrad.Prelude.Dict.{Dict, lookup, get_or, has_key, insert, delete, delete_where, or_zero}
use comrad.Prelude.Texts.{trim_space}
use comrad.Types.{
  Time, Node, NodeState, Slot, PlacementAssignment, UpdateRecord, Error, is_online, is_ready,
  zero_node, zero_slot, node_not_found, node_is_online, user_not_found, node_missing, slot_missing,
}
use comrad.Store.{Database, add_audit}
use comrad.Catalog.{unless_error}

-- An empty text and a nil pointer or slice ask for no change.
pub record UpdateNodeRequest : Type 0 where
  pub id : String
  pub owner_user_id : String
  pub approved : Option Bool
  pub mode : String
  pub tags : Option (List String)
  pub state : NodeState

no_state : NodeState → Bool
no_state (NodeState.other s) = s == ""
no_state _ = false

abbrev or_kept {ℓ} : {A : Type ℓ} → A → Option A → A
or_kept kept none = kept
or_kept kept (some a) = a

-- The node as the request wants it.
unfoldable pub requested_node : UpdateNodeRequest → Node → Node
unfolding no_state
requested_node req node = record node {
  approved = or_kept node.approved req.approved;
  owner_user_id = if req.owner_user_id == "" then node.owner_user_id else req.owner_user_id;
  mode = if req.mode == "" then node.mode else req.mode;
  tags = or_kept node.tags req.tags;
  state = if no_state req.state then node.state else req.state;
}

unfoldable pub upsert_admin_node : UpdateNodeRequest → Time → Database → Database × Option Error
upsert_admin_node req now db =
    let stored =
      or_zero (record zero_node { id = req.id; state = NodeState.expected })
        (lookup req.id db.nodes) in
    let node = requested_node req stored in
    unless_error
      (if not (req.owner_user_id == "") && not (has_key req.owner_user_id db.users)
        then some (user_not_found req.owner_user_id)
        else none)
      db
      (add_audit "admin.node.updated" "admin" node.id now
        (record db { nodes = insert node.id node db.nodes }))

unfoldable pub node_removed : String → Time → Database → Database
node_removed id now db = add_audit "admin.node.deleted" "admin" id now (record db {
  nodes = delete id db.nodes;
  slots = delete_where (λ (s : Slot). s.node_id == id) db.slots;
  assignments = delete_where (λ (a : PlacementAssignment). a.node_id == id) db.assignments;
})

-- The update of `handleAdminNodeDelete`.
unfoldable pub delete_node : String → Time → Database → Database × Option Error
delete_node id now db =
    unless_error
      (if not (has_key id db.nodes)
        then some node_not_found
        else if is_online (get_or zero_node id db.nodes).state
        then some node_is_online
        else none)
      db (node_removed id now db)

unfoldable pub unbanned_node : Node → Node
unbanned_node node = record node {
  quarantined = false;
  quarantine_reason = "";
  quarantine_until = none;
}

unfoldable pub unbanned_slot : Slot → Slot
unbanned_slot slot =
    let free = is_ready slot.state && slot.active_task_id == "" in
    record slot {
      quarantined = false;
      quarantine_reason = "";
      quarantine_until = none;
      accepts_new = if free then true else slot.accepts_new;
      mismatch_reason = if free then "" else slot.mismatch_reason;
    }

-- The two halves of the update of `handleAdminUnban`. A missing slot leaves the node's half done.
unfoldable pub unban_node : String → Time → Database → Database × Option Error
unban_node id now db =
    let node = unbanned_node (get_or zero_node id db.nodes) in
    if id == ""
    then (db, none)
    else if not (has_key id db.nodes)
    then (db, some (node_missing id))
    else (
      add_audit "quarantine.node_unbanned" "admin" node.id now
          (record db { nodes = insert node.id node db.nodes }),
      none,
    )

unfoldable pub unban_slot : String → Time → Database → Database × Option Error
unban_slot id now db =
    let slot = unbanned_slot (get_or zero_slot id db.slots) in
    if id == ""
    then (db, none)
    else if not (has_key id db.slots)
    then (db, some (slot_missing id))
    else (
      add_audit "quarantine.slot_unbanned" "admin" slot.id now
          (record db { slots = insert slot.id slot db.slots }),
      none,
    )

abbrev pub and_then :
    Database × Option Error → (Database → Database × Option Error) → Database × Option Error
and_then (db, none) next = next db
and_then (db, some e) next = (db, some e)

unfoldable pub unban : String → String → Time → Database → Database × Option Error
unban node slot now db = and_then (unban_node node now db) (unban_slot slot now)

-- The update of `handleAdminSettings`.
unfoldable pub update_settings : Option Bool → Time → Database → Database
update_settings p2p now db =
    add_audit "admin.settings.updated" "admin" "settings" now
      (record db { settings = record { p2p_enabled = or_kept db.settings.p2p_enabled p2p } })

unfoldable pub merge_update_delivery : String → String → String
merge_update_delivery current detail =
    let next = trim_space detail in
    if next == "" || next == current then current else if current == "" then next else "mixed"

-- The update of `recordWorkerUpdateTelemetry`.
unfoldable pub updated_record : String → String → UpdateRecord → UpdateRecord
updated_record status detail update = record update {
  status = if status == "" then update.status else status;
  failure = if not (detail == "") && status == "update_failed" then detail else update.failure;
  delivery =
      if status == "update_downloaded"
      then merge_update_delivery update.delivery detail
      else update.delivery;
  delivery_detail = if status == "update_downloaded" then detail else update.delivery_detail;
}

unfoldable pub updated_node : String → String → Time → Node → Node
updated_node status detail now node =
    let failed = status == "update_failed" && not (detail == "") in
    record node {
      update_status = status;
      last_failure = if failed then detail else node.last_failure;
      last_failure_at = if failed then some now else node.last_failure_at;
    }

unfoldable pub telemetry_written :
    Option UpdateRecord → String → String → String → String → Time → Database → Database
unfolding updated_node
telemetry_written none node_id update_id status detail now db = db
telemetry_written (some update) node_id update_id status detail now db = record db {
  updates = insert update_id (updated_record status detail update) db.updates;
  nodes =
      insert node_id (updated_node status detail now (get_or zero_node node_id db.nodes)) db.nodes;
}

unfoldable pub record_worker_update_telemetry :
    String → String → String → String → Time → Database → Database
unfolding telemetry_written
record_worker_update_telemetry node_id update_id status detail now db =
    telemetry_written (lookup update_id db.updates) node_id update_id status detail now db
