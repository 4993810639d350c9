-- ===== src/Attempts/Reserve.antt =====
-- internal/comrad/manager_chat.go: a slot and a task are reserved once.
use comrad.Prelude.{
  ◌≡◌, ◌≢◌, ◌⊎◌, refl, sym, subst, ◌∙◌, true, none, some, arith, ◌==◌, eq_iff, Bool-cases, inl, inr,
}
use comrad.Prelude.Dict.{get_or, get_or-insert}
use comrad.Types.{
  Time, Slot, Task, Attempt, WorkloadProfile, Error, is_cancelled, is_queued, zero_task, zero_slot,
}
use comrad.Store.{Database}
use comrad.Attempts.{slot_is_free, reserved, reserve_attempt_in_db, serving_slot, running_task}

reserve-granted :
    (task : Task) (profile effective : WorkloadProfile) (slot : Slot) (attempt : Attempt)
    (now : Time) (db : Database)
    → (reserve_attempt_in_db task profile effective slot attempt now db).1 ≡ none
    → ((reserve_attempt_in_db task profile effective slot attempt now db).0
        ≡ reserved task profile effective slot attempt now db)
      × (is_queued (get_or zero_task task.id db.tasks).status ≡ true)
      × (slot_is_free (get_or zero_slot slot.id db.slots) profile effective ≡ true)
unfolding reserve_attempt_in_db
reserve-granted task profile effective slot attempt now db h =
    let stored = get_or zero_task task.id db.tasks in
    let current = get_or zero_slot slot.id db.slots in
    elim (Bool-cases (is_cancelled stored.status)) [
      | inl e ↦ absurd (ground (arith, h, e))
      | inr e ↦ elim (Bool-cases (is_queued stored.status)) [
        | inr q ↦ absurd (ground (arith, h, e, q))
        | inl q ↦ elim (Bool-cases (slot_is_free current profile effective)) [
          | inl f ↦ rw (e, q, f) (refl, refl, refl)
          | inr f ↦ absurd (ground (arith, h, e, q, f))
        ]
      ]
    ]

-- A refused reservation changes nothing.
pub reserve_refused :
    (task : Task) (profile effective : WorkloadProfile) (slot : Slot) (attempt : Attempt)
    (now : Time) (db : Database) (e : Error)
    → (reserve_attempt_in_db task profile effective slot attempt now db).1 ≡ some e
    → (reserve_attempt_in_db task profile effective slot attempt now db).0 ≡ db
unfolding reserve_attempt_in_db
reserve_refused task profile effective slot attempt now db e h = ground (arith, h)

-- Once a stored slot is reserved for a stored task, any reservation of the same slot or of the same
-- task is refused.
pub reserve_once :
    (task : Task) (profile effective : WorkloadProfile) (slot : Slot) (attempt : Attempt)
    (now : Time) (db : Database)
    → (get_or zero_slot slot.id db.slots).id ≡ slot.id
    → (get_or zero_task task.id db.tasks).id ≡ task.id
    → (reserve_attempt_in_db task profile effective slot attempt now db).1 ≡ none
    → (task' : Task) (profile' effective' : WorkloadProfile) (slot' : Slot) (attempt' : Attempt)
      (now' : Time)
    → (slot'.id ≡ slot.id) ⊎ (task'.id ≡ task.id)
    → (reserve_attempt_in_db task' profile' effective' slot' attempt' now'
        (reserve_attempt_in_db task profile effective slot attempt now db).0).1
      ≢ none
unfolding reserved
reserve_once task profile effective slot attempt now db hs ht h task' profile' effective' slot'
      attempt' now' same k =
    let (eq, q, f) = reserve-granted task profile effective slot attempt now db h in
    let after = (reserve_attempt_in_db task profile effective slot attempt now db).0 in
    let (eq', q', f') = reserve-granted task' profile' effective' slot' attempt' now' after k in
    let stored = get_or zero_task task.id db.tasks in
    let current = get_or zero_slot slot.id db.slots in
    elim same [
      | inl s ↦
          let free : slot_is_free
                (get_or zero_slot slot'.id
                  (reserved task profile effective slot attempt now db).slots)
                profile' effective'
              ≡ true =
            subst (λ d. slot_is_free (get_or zero_slot slot'.id d.slots) profile' effective' ≡ true)
              eq f' in
          let up =
            get_or-insert zero_slot current.id slot'.id (serving_slot task.id now current)
              db.slots in
          let same_slot : (current.id == slot'.id) ≡ true =
            ground (arith, eq_iff current.id slot'.id, hs ∙ sym s) in
          let busy = rw (up, same_slot) at free in absurd (ground (arith, busy))
      | inr t ↦
          let queued : is_queued
                (get_or zero_task task'.id
                  (reserved task profile effective slot attempt now db).tasks).status
              ≡ true =
            subst (λ d. is_queued (get_or zero_task task'.id d.tasks).status ≡ true) eq q' in
          let up =
            get_or-insert zero_task stored.id task'.id (running_task profile effective now stored)
              db.tasks in
          let same_task : (stored.id == task'.id) ≡ true =
            ground (arith, eq_iff stored.id task'.id, ht ∙ sym t) in
          let running = rw (up, same_task) at queued in absurd (ground (arith, running))
    ]
