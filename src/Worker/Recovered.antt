-- ===== src/Worker/Recovered.antt =====
-- internal/comrad/worker_runtime.go: a slot whose server is gone is restarted three times at most.
use comrad.Prelude.{
  ℕ, suc, ◌≡◌, refl, String, Bool, true, false, ◌&&◌, Option, none, some, arith, ltb, leb, eq_refl,
  if◌then◌else◌, Bool-cases, inl, inr,
}
use comrad.Prelude.Dict.{get_or, insert, delete, get_or-insert, lookup-insert, lookup-delete}
use comrad.Types.{SlotState, WorkloadProfile, zero_slot}
use comrad.Worker.{WorkerModel, assignment_key, set_slot_state}
use comrad.Worker.Assignments.{runtime_server_ready, is_server_for}
use comrad.Worker.Restarts.{
  recover_runtime_slot, restart_or_stop, restarted, ready_unless, reserve_runtime_restart,
  start_runtime_server_for_slot, server_started, stop_runtime_server, max_runtime_restart_attempts,
}

abbrev pub is_started : Option String → Bool
is_started none = true
is_started (some e) = false

abbrev counted : String → WorkerModel → WorkerModel
counted slot w = record w {
  runtime_restarts = insert slot (suc (get_or 0 slot w.runtime_restarts)) w.runtime_restarts;
}

recover_left :
    (failed : Option String) (slot : String) (profile : WorkloadProfile) (reason : String)
    (w : WorkerModel)
    → leb max_runtime_restart_attempts (get_or 0 slot w.runtime_restarts) ≡ false
    → recover_runtime_slot false failed slot profile reason w
      ≡ restarted failed slot profile reason (counted slot w)
unfolding recover_runtime_slot restart_or_stop reserve_runtime_restart
recover_left failed slot profile reason w left = rw left refl

recover_used :
    (failed : Option String) (slot : String) (profile : WorkloadProfile) (reason : String)
    (w : WorkerModel)
    → leb max_runtime_restart_attempts (get_or 0 slot w.runtime_restarts) ≡ true
    → recover_runtime_slot false failed slot profile reason w
      ≡ set_slot_state slot SlotState.error profile.id "llama-server restart limit reached"
          (stop_runtime_server slot w)
unfolding recover_runtime_slot restart_or_stop reserve_runtime_restart
recover_used failed slot profile reason w used = rw used refl

abbrev Restarted : Option String → String → WorkloadProfile → WorkerModel → ℕ → Bool → Type 0
Restarted failed slot profile after used restarts =
    (get_or 0 slot after.runtime_restarts ≡ (if restarts then suc used else used))
    × (runtime_server_ready slot (assignment_key profile) after ≡ (restarts && is_started failed))
    × ((get_or zero_slot slot after.slots).state
        ≡ (if restarts && is_started failed then SlotState.ready else SlotState.error))

restarted-Restarted :
    (failed : Option String) (slot : String) (profile : WorkloadProfile) (reason : String)
    (w : WorkerModel) (used : ℕ)
    → get_or 0 slot w.runtime_restarts ≡ suc used
    → Restarted failed slot profile (restarted failed slot profile reason w) used true
unfolding restarted ready_unless start_runtime_server_for_slot server_started set_slot_state
    stop_runtime_server runtime_server_ready is_server_for
restarted-Restarted none slot profile reason w used counted_up = (
  counted_up,
  rw
      (
        lookup-insert slot slot (record { profile_key = assignment_key profile; alive = true })
            (delete slot w.runtimes),
        eq_refl slot,
        eq_refl (assignment_key profile),
      )
      refl,
  rw (get_or-insert zero_slot slot slot _ _, eq_refl slot) refl,
)
restarted-Restarted (some e) slot profile reason w used counted_up = (
  counted_up,
  rw (lookup-delete slot slot w.runtimes) (rw (eq_refl slot) refl),
  rw (get_or-insert zero_slot slot slot _ _, eq_refl slot) refl,
)

used_up-Restarted :
    (failed : Option String) (slot : String) (profile : WorkloadProfile) (reason : String)
    (w : WorkerModel)
    → Restarted failed slot profile
        (set_slot_state slot SlotState.error profile.id reason (stop_runtime_server slot w))
        (get_or 0 slot w.runtime_restarts)
        false
unfolding set_slot_state stop_runtime_server runtime_server_ready is_server_for
used_up-Restarted failed slot profile reason w = (
  refl,
  rw (lookup-delete slot slot w.runtimes) (rw (eq_refl slot) refl),
  rw (get_or-insert zero_slot slot slot _ _, eq_refl slot) refl,
)

-- The server of a slot is not healthy and the slot is recovered. A restart is counted if fewer than
-- three are. The server runs afterwards, and the slot is ready, if and only if a restart was left and
-- the process started; otherwise the slot is in error.
pub recover_runtime_slot-bounded :
    (failed : Option String) (slot : String) (profile : WorkloadProfile) (reason : String)
    (w : WorkerModel)
    → let used = get_or 0 slot w.runtime_restarts in
      let after = recover_runtime_slot false failed slot profile reason w in
      let restarts = ltb used max_runtime_restart_attempts in
      (get_or 0 slot after.runtime_restarts ≡ (if restarts then suc used else used))
      × (runtime_server_ready slot (assignment_key profile) after ≡ (restarts && is_started failed))
      × ((get_or zero_slot slot after.slots).state
          ≡ (if restarts && is_started failed then SlotState.ready else SlotState.error))
recover_runtime_slot-bounded failed slot profile reason w =
    let used = get_or 0 slot w.runtime_restarts in
    elim (Bool-cases (leb max_runtime_restart_attempts used)) [
      | inl e ↦
          let none_left : ltb used max_runtime_restart_attempts ≡ false = ground (arith, e) in
          rw (recover_used failed slot profile reason w e, none_left)
            (used_up-Restarted failed slot profile "llama-server restart limit reached" w)
      | inr e ↦
          let one_left : ltb used max_runtime_restart_attempts ≡ true = ground (arith, e) in
          rw (recover_left failed slot profile reason w e, one_left)
            (restarted-Restarted failed slot profile reason (counted slot w) used
              (rw (get_or-insert 0 slot slot (suc used) w.runtime_restarts, eq_refl slot) refl))
    ]
