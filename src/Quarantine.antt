-- ===== src/Quarantine.antt =====
-- internal/comrad/quarantine.go: a slot that fails too often for one reason takes no tasks for a
-- while. The slot is passed by pointer and written back by the caller, so it is a result here.
pub mod Threshold
use comrad.Prelude.{
  ℕ, suc, ◌+◌, String, Bool, true, false, ◌&&◌, ◌||◌, not, List, [], ◌∷◌, Option, none, some, leb,
  eqb, ◌==◌, if◌then◌else◌, any,
}
use comrad.Prelude.Dict.{Dict, get_or, insert, map_values, values}
use comrad.Types.{Time, Node, Slot, AuditEvent, after, is_ready, zero_node, failure_quarantined}
use comrad.Store.{Database, add_audit}
use comrad.Flapping.{five_minutes}
use Prim.Native.String

abbrev pub failure_name : String → String
failure_name reason = if reason == "" then "unknown" else reason

-- A configured value that is not positive is 0.
abbrev pub threshold_or_default : ℕ → ℕ
threshold_or_default threshold = if eqb threshold 0 then 3 else threshold

abbrev pub duration_or_default : ℕ → ℕ
duration_or_default duration = if eqb duration 0 then five_minutes else duration

-- The slot with one more failure of a named reason.
unfoldable pub failed_slot : String → Time → Slot → Slot
failed_slot reason now slot = record slot {
  failure_count = suc slot.failure_count;
  failure_counters =
      insert reason (suc (get_or 0 reason slot.failure_counters)) slot.failure_counters;
  last_failure = reason;
  last_failure_at = some now;
}

unfoldable pub banned_slot : String → Time → ℕ → Slot → Slot
banned_slot reason now duration slot = record slot {
  quarantined = true;
  quarantine_reason = reason;
  quarantine_until = some (now + duration_or_default duration);
  accepts_new = false;
  mismatch_reason = String.◌++◌ failure_quarantined (String.◌++◌ ": " reason);
}

unfoldable pub note_node_failure : String → String → Time → Database → Database
note_node_failure reason node_id now db =
    let node = get_or zero_node node_id db.nodes in
    if node.id == "" then db else record db {
      nodes =
          insert node.id (record node { last_failure = reason; last_failure_at = some now })
            db.nodes;
    }

abbrev pub reaches : ℕ → String → Slot → Bool
reaches threshold reason slot =
    leb (threshold_or_default threshold) (get_or 0 reason slot.failure_counters)

unfoldable pub record_slot_failure : Database → Slot → String → Time → ℕ → ℕ → Database × Slot
record_slot_failure db slot given now threshold duration =
    let reason = failure_name given in
    let failed = failed_slot reason now slot in
    if reaches threshold reason failed
    then (
      note_node_failure reason slot.node_id now
          (add_audit "quarantine.slot_banned" "manager" slot.id now db),
      banned_slot reason now duration failed,
    )
    else (note_node_failure reason slot.node_id now db, failed)

-- `until != nil && !until.After(now)`.
abbrev pub has_passed : Option Time → Time → Bool
has_passed none now = false
has_passed (some t) now = not (after t now)

unfoldable pub quarantine_expired : Time → Slot → Bool
quarantine_expired now slot = slot.quarantined && has_passed slot.quarantine_until now

unfoldable pub quarantine_expired_node : Time → Node → Bool
quarantine_expired_node now node = node.quarantined && has_passed node.quarantine_until now

unfoldable pub clear_slot_quarantine : Slot → Slot
clear_slot_quarantine slot =
    let free = is_ready slot.state && slot.active_task_id == "" in
    record slot {
      quarantined = false;
      quarantine_reason = "";
      quarantine_until = none;
      accepts_new = if free then true else slot.accepts_new;
      mismatch_reason = if free then "" else slot.mismatch_reason;
    }

unfoldable pub clear_node_quarantine : Node → Node
clear_node_quarantine node = record node {
  quarantined = false;
  quarantine_reason = "";
  quarantine_until = none;
}

abbrev pub release_slot : Time → Slot → Slot
release_slot now slot = if quarantine_expired now slot then clear_slot_quarantine slot else slot

abbrev pub release_node : Time → Node → Node
release_node now node =
    if quarantine_expired_node now node then clear_node_quarantine node else node

unfoldable pub has_expired_quarantines : Time → Database → Bool
has_expired_quarantines now db =
    any (quarantine_expired_node now) (values db.nodes)
    || any (quarantine_expired now) (values db.slots)

-- The audit events of the expired entries of a map, in its order.
unfoldable pub audit_expired {ℓ} :
    {V : Type ℓ} → (V → Bool) → String → Time → Dict V → Database → Database
audit_expired p kind now [] db = db
audit_expired p kind now ((k, v) ∷ m) db =
    audit_expired p kind now m (if p v then add_audit kind "manager" k now db else db)

unfoldable pub clear_expired_quarantines : Time → Database → Database
clear_expired_quarantines now db =
    let logged =
      audit_expired (quarantine_expired now) "quarantine.slot_expired" now db.slots
        (audit_expired (quarantine_expired_node now) "quarantine.node_expired" now db.nodes db) in
    if has_expired_quarantines now db
    then record logged {
      nodes = map_values (release_node now) db.nodes;
      slots = map_values (release_slot now) db.slots;
    }
    else db
