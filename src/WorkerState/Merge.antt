-- ===== src/WorkerState/Merge.antt =====
-- internal/comrad/manager_worker_state.go: a worker cannot talk a quarantine away.
use comrad.Prelude.{
  ◌≡◌, refl, ◌||◌, ◌↔◌, String, Bool, true, false, not, ◌&&◌, none, arith, ◌==◌, eq_refl,
  if◌then◌else◌, Bool-cases, inl, inr,
}
use comrad.Prelude.Dict.{get_or, get_or-insert}
use comrad.Types.{Time, Node, Slot, is_ready, zero_slot}
use comrad.Store.{Database}
use comrad.Flapping.{clear_expired_worker_suppression}
use comrad.Quarantine.{
  quarantine_expired, clear_slot_quarantine, quarantine_expired_node, clear_node_quarantine,
}
use comrad.WorkerState.{
  normalize_worker_slot, merge_slot_profile_state, copy_slot_failure_state, merge_existing_slot,
  merge_existing_node_config, copy_node_failure_state, merge_existing_node, SlotStatePayload,
  apply_slot_state_payload, apply_slot_model_payload, update_slot_state,
}

-- A slot that a worker reports keeps the failures and the quarantine that the manager knows of, and
-- takes no new tasks while the quarantine lasts; without one, it takes them only if it is ready.
pub merge_existing_slot-quarantine :
    (given old : Slot) (node : Node) (now : Time)
    → let slot = merge_existing_slot (normalize_worker_slot given node) old now in
      (slot.quarantined ≡ (old.quarantined && not (quarantine_expired now old)))
      × (slot.failure_counters ≡ old.failure_counters)
      × (slot.failure_count ≡ old.failure_count)
      × (slot.node_id ≡ node.id)
      × ((slot.quarantined && slot.accepts_new) ≡ false)
      × ((slot.accepts_new && not (is_ready slot.state)) ≡ false)
unfolding merge_existing_slot normalize_worker_slot merge_slot_profile_state copy_slot_failure_state
    quarantine_expired clear_slot_quarantine
merge_existing_slot-quarantine given old node now =
    (ground arith, ground arith, ground arith, ground arith, ground arith, ground arith)

-- A node that connects is approved exactly if it was, or by configuration; a node that is new is as
-- it says. A known node keeps its quarantine, and a new one its own, until that has passed.
pub merge_existing_node-admission :
    (node existing : Node) (auto_approve : Bool) (now : Time)
    → let merged = merge_existing_node node existing auto_approve now in
      (merged.approved
        ≡ (auto_approve || (if existing.id == "" then node.approved else existing.approved)))
      × (merged.quarantined ≡ (
          if existing.id == ""
          then node.quarantined && not (quarantine_expired_node now node)
          else existing.quarantined && not (quarantine_expired_node now existing)))
unfolding merge_existing_node merge_existing_node_config copy_node_failure_state
    quarantine_expired_node clear_node_quarantine clear_expired_worker_suppression
merge_existing_node-admission node existing auto_approve now = (ground arith, ground arith)

-- A slot state from a worker is written exactly if the slot is known and the worker's own; in every
-- other case there is an error and the database stays. Where it is written, the slot accepts new
-- tasks exactly if it is ready and not quarantined.
pub update_slot_state-owned :
    (clock : Time) (node_id : String) (payload : SlotStatePayload) (db : Database)
    → let slot = get_or zero_slot payload.slot_id db.slots in
      let after = update_slot_state clock node_id payload db in
      let owned = not (slot.id == "") && slot.node_id == node_id in
      ((after.1 ≡ none) ↔ (owned ≡ true))
      × ((if owned then db else after.0) ≡ db)
      × ((get_or zero_slot slot.id after.0.slots).accepts_new ≡ (
          if owned
          then is_ready payload.state && not slot.quarantined
          else (get_or zero_slot slot.id db.slots).accepts_new))
unfolding update_slot_state apply_slot_state_payload apply_slot_model_payload
update_slot_state-owned clock node_id payload db =
    let slot = get_or zero_slot payload.slot_id db.slots in
    let slot' = apply_slot_state_payload clock slot payload in
    let up = get_or-insert zero_slot slot.id slot.id slot' db.slots in
    elim (Bool-cases (slot.id == "")) [
      | inl e ↦ rw e (ground arith, refl, refl)
      | inr e ↦ elim (Bool-cases (slot.node_id == node_id)) [
        | inl f ↦ rw (e, f) (ground arith, refl, rw (up, eq_refl slot.id) refl)
        | inr f ↦ rw (e, f) (ground arith, refl, refl)
      ]
    ]
