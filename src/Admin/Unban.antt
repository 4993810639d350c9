-- ===== src/Admin/Unban.antt =====
-- internal/comrad/manager_admin.go, `handleAdminUnban`: an unbanned slot is offered to tasks again.
use comrad.Prelude.{◌≡◌, refl, String, true, false, not, ◌&&◌, List, none, arith, ◌==◌, eq_refl}
use comrad.Prelude.Dict.{get_or, has_key, insert, get_or-insert}
use comrad.Prelude.Sets.{contains}
use comrad.Types.{Time, Node, Slot, is_online, is_ready, zero_node, zero_slot}
use comrad.Store.{Database, add_audit}
use comrad.Scheduler.{slot_ready_for_profile}
use comrad.Admin.{unban, unban_node, unban_slot, unbanned_node, unbanned_slot}

abbrev node_written : String → Time → Database → Database
node_written node now db =
    let n = unbanned_node (get_or zero_node node db.nodes) in
    add_audit "quarantine.node_unbanned" "admin" node now
      (record db { nodes = insert node n db.nodes })

unban_node-known :
    (node : String) (now : Time) (db : Database)
    → (node == "") ≡ false
    → has_key node db.nodes ≡ true
    → (get_or zero_node node db.nodes).id ≡ node
    → unban_node node now db ≡ (node_written node now db, none)
unfolding unban_node unbanned_node
unban_node-known node now db named known own = rw (named, known, own) refl

abbrev slot_written : String → Time → Database → Database
slot_written slot now db =
    let s = unbanned_slot (get_or zero_slot slot db.slots) in
    add_audit "quarantine.slot_unbanned" "admin" slot now
      (record db { slots = insert slot s db.slots })

unban_slot-known :
    (slot : String) (now : Time) (db : Database)
    → (slot == "") ≡ false
    → has_key slot db.slots ≡ true
    → (get_or zero_slot slot db.slots).id ≡ slot
    → unban_slot slot now db ≡ (slot_written slot now db, none)
unfolding unban_slot unbanned_slot
unban_slot-known slot now db named known own = rw (named, known, own) refl

unbanned-ready :
    (slot : Slot) (node : Node) (failed : List String)
    → slot_ready_for_profile (unbanned_slot slot) (unbanned_node node) slot.profile_id failed ≡ (
        is_ready slot.state
        && slot.active_task_id == ""
        && not (contains failed slot.id)
        && is_online node.state
        && node.approved)
unfolding slot_ready_for_profile unbanned_slot unbanned_node
unbanned-ready slot node failed = ground (arith, eq_refl slot.profile_id)

-- An administrator unbans a slot and a node that are known and stored under their ids, and no error is
-- reported. After it the slot may take a task of its profile on that node if and only if it is ready,
-- at work on nothing, not among the slots on which the task failed, and the node is online and
-- approved: neither ban nor a refusal of new tasks is left.
pub unban-ready :
    (node slot : String) (now : Time) (failed : List String) (db : Database)
    → (node == "") ≡ false
    → (slot == "") ≡ false
    → has_key node db.nodes ≡ true
    → has_key slot db.slots ≡ true
    → (get_or zero_node node db.nodes).id ≡ node
    → (get_or zero_slot slot db.slots).id ≡ slot
    → let (after, err) = unban node slot now db in
      let n = get_or zero_node node db.nodes in
      let s = get_or zero_slot slot db.slots in
      (err ≡ none)
      × (slot_ready_for_profile
            (get_or zero_slot slot after.slots)
            (get_or zero_node node after.nodes)
            s.profile_id
            failed
          ≡ (is_ready s.state
              && s.active_task_id == ""
              && not (contains failed s.id)
              && is_online n.state
              && n.approved))
unfolding unban
unban-ready node slot now failed db nn sn nk sk ni si =
    let n = get_or zero_node node db.nodes in
    let s = get_or zero_slot slot db.slots in
    rw
      (
        unban_node-known node now db nn nk ni,
        unban_slot-known slot now (node_written node now db) sn sk si,
      )
      (
        refl,
        rw
            (
              get_or-insert zero_slot slot slot (unbanned_slot s) db.slots,
              eq_refl slot,
              get_or-insert zero_node node node (unbanned_node n) db.nodes,
              eq_refl node,
            )
            (unbanned-ready s n failed),
      )
