-- ===== src/Quarantine/Threshold.antt =====
-- internal/comrad/quarantine.go: when a slot is quarantined, and that expired quarantines end.
use comrad.Prelude.{
  if◌then◌else◌, leb, ◌||◌, ◌&&◌, ℕ, suc, ◌≡◌, refl, String, Bool, false, not, ◌&&◌, [], ◌∷◌, arith,
  ◌==◌, eq_refl, any, Bool-cases, inl, inr,
}
use comrad.Prelude.Dict.{Dict, get_or, get_or-insert, map_values, values}
use comrad.Types.{Time, Node, Slot}
use comrad.Store.{Database}
use comrad.Quarantine.{
  failure_name, threshold_or_default, failed_slot, banned_slot, reaches, record_slot_failure,
  quarantine_expired, quarantine_expired_node, clear_slot_quarantine, clear_node_quarantine,
  release_slot, release_node, has_expired_quarantines, clear_expired_quarantines,
}

-- Whether the quarantine holds at a time: it is set and its end lies after that time.
abbrev pub banned_at : Time → Slot → Bool
banned_at now slot = slot.quarantined && not (quarantine_expired now slot)

failed_slot-counts :
    (reason : String) (now : Time) (slot : Slot) (other : String)
    → get_or 0 other (failed_slot reason now slot).failure_counters ≡ (
        if reason == other
        then suc (get_or 0 reason slot.failure_counters)
        else get_or 0 other slot.failure_counters)
unfolding failed_slot
failed_slot-counts reason now slot other =
    get_or-insert 0 reason other (suc (get_or 0 reason slot.failure_counters)) slot.failure_counters

-- A failure adds one to the counter of its own reason only. The slot is quarantined exactly if it
-- was or this counter reaches the threshold. If it reaches it, the slot takes no new tasks and its
-- quarantine holds now. Below the threshold the slot takes new tasks exactly if it did, also where it was
-- quarantined before.
pub record_slot_failure_threshold :
    (db : Database) (slot : Slot) (given : String) (now : Time) (threshold duration : ℕ)
    (other : String)
    → let reason = failure_name given in
      let after = (record_slot_failure db slot given now threshold duration).1 in
      let count = suc (get_or 0 reason slot.failure_counters) in
      let reached = leb (threshold_or_default threshold) count in
      (get_or 0 other after.failure_counters
        ≡ (if reason == other then count else get_or 0 other slot.failure_counters))
      × (after.quarantined ≡ (reached || slot.quarantined))
      × (after.accepts_new ≡ (not reached && slot.accepts_new))
      × ((reached && not (banned_at now after)) ≡ false)
unfolding record_slot_failure banned_slot failed_slot quarantine_expired
record_slot_failure_threshold db slot given now threshold duration other =
    let reason = failure_name given in
    let one = failed_slot-counts reason now slot reason in
    let same = eq_refl reason in
    let each = failed_slot-counts reason now slot other in
    elim (Bool-cases (reaches threshold reason (failed_slot reason now slot))) [
      | inl e ↦ rw e (each, ground (arith, one, same), ground (arith, one, same), ground arith)
      | inr e ↦
          rw e
            (each, ground (arith, one, same), ground (arith, one, same), ground (arith, one, same))
    ]

none_expired {ℓ} :
    {V : Type ℓ} (p : V → Bool) (f : V → V) (m : Dict V)
    → ((v : V) → p (f v) ≡ false)
    → any p (values (map_values f m)) ≡ false
unfolding values map_values
none_expired p f [] h = refl
none_expired p f ((k, v) ∷ m) h = ground (arith, h v, none_expired p f m h)

released_slot : (now : Time) (slot : Slot) → quarantine_expired now (release_slot now slot) ≡ false
unfolding quarantine_expired clear_slot_quarantine
released_slot now slot = ground arith

released_node :
    (now : Time) (node : Node) → quarantine_expired_node now (release_node now node) ≡ false
unfolding quarantine_expired_node clear_node_quarantine
released_node now node = ground arith

-- After the expired quarantines are cleared, no node and no slot has one that is expired.
clear_expired_quarantines_settled :
    (now : Time) (db : Database)
    → has_expired_quarantines now (clear_expired_quarantines now db) ≡ false
unfolding clear_expired_quarantines has_expired_quarantines
clear_expired_quarantines_settled now db =
    let n =
      none_expired (quarantine_expired_node now) (release_node now) db.nodes (released_node now) in
    let s = none_expired (quarantine_expired now) (release_slot now) db.slots (released_slot now) in
    elim (Bool-cases (has_expired_quarantines now db)) [
      | inl e ↦ rw e (ground (arith, n, s))
      | inr e ↦ rw e e
    ]
