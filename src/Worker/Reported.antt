-- ===== src/Worker/Reported.antt =====
-- internal/comrad/worker_task.go: a worker answers for each attempt that it takes up, once.
use comrad.Prelude.{
  ◌-◌, ◌||◌, sym, ℕ, suc, ◌+◌, ◌≡◌, refl, ◌∙◌, ap, String, Bool, true, false, not, List, [], ◌∷◌,
  ◌++◌, Option, none, some, arith, ◌==◌, eq_refl, eq_iff, if◌then◌else◌, Bool-cases, inl, inr,
}
use comrad.Prelude.Dict.{Dict, has_key, insert, delete, lookup-insert, lookup-delete}
use comrad.Fit.{is_nil}
use comrad.Types.{Time, TaskStatus, SlotState, failure_cancelled_by_client}
use comrad.Worker.{
  WorkerModel, WorkerMessage, attempt_started, task_token, compute_report, enqueue,
  set_slot_serving, set_slot_state,
}
use comrad.Worker.Tasks.{
  ExecuteTaskPayload, RuntimeRun, RuntimeEnd, done, broken, interrupted, TaskAdmissionFailure,
  register_active_attempt, unregister_active_attempt, send_report, fail_execution, send_task_tokens,
  task_ended, run_task, run_unless, if_registered, execute_task, admit_task,
}

-- How many of the messages are a report of the attempt.
abbrev pub one_report : String → WorkerMessage → ℕ
one_report id (compute_report r) = if r.attempt_id == id then 1 else 0
one_report id _ = 0

unfoldable pub reports_of : String → List WorkerMessage → ℕ
reports_of id [] = 0
reports_of id (m ∷ messages) = one_report id m + reports_of id messages

-- A step that sends no report of the attempt.
record Silent (id : String) (before after : WorkerModel) : Type 0 where
  pub reports : reports_of id after.outbox ≡ reports_of id before.outbox
  pub active : after.active ≡ before.active
  pub is_full : after.is_full ≡ before.is_full

-- A step whose last message is a report of the attempt, and whose only one, if the queue takes it.
record Reports (id : String) (before after : WorkerModel) : Type 0 where
  pub reports : reports_of id after.outbox ≡ (
      if before.is_full (after.offered - 1)
      then reports_of id before.outbox
      else suc (reports_of id before.outbox))
  pub active : after.active ≡ before.active

after-Silent : {id : String} {a b c : WorkerModel} → Silent id a b → Reports id b c → Reports id a c
after-Silent s r = record {
  reports = rw (sym s.is_full, sym s.reports) r.reports;
  active = r.active ∙ s.active;
}

Silent-twice : {id : String} {a b c : WorkerModel} → Silent id a b → Silent id b c → Silent id a c
Silent-twice s t = record {
  reports = t.reports ∙ s.reports;
  active = t.active ∙ s.active;
  is_full = t.is_full ∙ s.is_full;
}

reports_of-append :
    (id : String) (messages : List WorkerMessage) (m : WorkerMessage)
    → reports_of id (messages ++ m ∷ []) ≡ reports_of id messages + one_report id m
unfolding reports_of
reports_of-append id [] m = ground arith
reports_of-append id (x ∷ messages) m = ground (arith, reports_of-append id messages m)

append-silent :
    (id : String) (full : Bool) (messages : List WorkerMessage) (m : WorkerMessage)
    → one_report id m ≡ 0
    → reports_of id (if full then messages else messages ++ m ∷ []) ≡ reports_of id messages
append-silent id true messages m silent = refl
append-silent id false messages m silent = ground (arith, silent, reports_of-append id messages m)

enqueue-Silent :
    (id : String) (m : WorkerMessage) (w : WorkerModel)
    → one_report id m ≡ 0
    → Silent id w (enqueue m w)
enqueue-Silent id m w silent = record {
  reports = append-silent id (w.is_full w.offered) w.outbox m silent;
  active = refl;
  is_full = refl;
}

enqueue-Reports :
    (id : String) (m : WorkerMessage) (w : WorkerModel)
    → one_report id m ≡ 1
    → Reports id w (enqueue m w)
enqueue-Reports id m w one =
    let last : suc w.offered - 1 ≡ w.offered = omega arith in
    record {
      reports = elim (Bool-cases (w.is_full w.offered)) [
        | inl e ↦ rw (last, e) refl
        | inr e ↦ rw (last, e) (ground (arith, one, reports_of-append id w.outbox m))
      ];
      active = refl;
    }

delete_inserted :
    (id other : String) (v : Bool) (m : Dict Bool)
    → has_key id m ≡ false
    → has_key other (delete id (insert id v m)) ≡ has_key other m
unfolding has_key
delete_inserted id other v m new =
    ground
      (arith, eq_iff id other, lookup-delete id other (insert id v m), lookup-insert id other v m)

send_task_tokens-Silent :
    (id : String) (payload : ExecuteTaskPayload) (tokens : List String) (sent : ℕ) (w : WorkerModel)
    → Silent id w (send_task_tokens payload tokens sent w)
unfolding send_task_tokens
send_task_tokens-Silent id payload [] sent w = record {
  reports = refl;
  active = refl;
  is_full = refl;
}
send_task_tokens-Silent id payload (token ∷ tokens) sent w =
    let m = task_token payload.attempt_id token sent in
    Silent-twice (enqueue-Silent id m w refl)
      (send_task_tokens-Silent id payload tokens (suc sent) (enqueue m w))

send_report-Reports :
    (fresh : String) (now : Time) (payload : ExecuteTaskPayload) (phase reason : String)
    (status : TaskStatus) (retry : Bool) (w : WorkerModel)
    → Reports payload.attempt_id w (send_report fresh now payload phase reason status retry w)
unfolding send_report
send_report-Reports fresh now payload phase reason status retry w =
    let id = payload.attempt_id in enqueue-Reports id _ w (rw (eq_refl id) refl)

fail_execution-Reports :
    (fresh : String) (now : Time) (payload : ExecuteTaskPayload) (phase reason : String)
    (retry first : Bool) (w : WorkerModel)
    → Reports payload.attempt_id w (fail_execution fresh now payload phase reason retry first w)
unfolding fail_execution
fail_execution-Reports fresh now payload phase reason retry first w =
    after-Silent (enqueue-Silent payload.attempt_id _ w refl)
      (send_report-Reports fresh now payload phase reason TaskStatus.failed retry _)

set_slot_serving-Silent :
    (id slot profile task : String) (w : WorkerModel)
    → Silent id w (set_slot_serving slot profile task w)
unfolding set_slot_serving
set_slot_serving-Silent id slot profile task w = record {
  reports = append-silent id (w.is_full w.offered) w.outbox _ refl;
  active = refl;
  is_full = refl;
}

set_slot_state-Silent :
    (id slot : String) (state : SlotState) (profile reason : String) (w : WorkerModel)
    → Silent id w (set_slot_state slot state profile reason w)
unfolding set_slot_state
set_slot_state-Silent id slot state profile reason w = record {
  reports = append-silent id (w.is_full w.offered) w.outbox _ refl;
  active = refl;
  is_full = refl;
}

task_ended-Reports :
    (fresh : String) (now : Time) (payload : ExecuteTaskPayload) (first : Bool)
    (ending : RuntimeEnd) (w : WorkerModel)
    → Reports payload.attempt_id w (task_ended fresh now payload first ending w)
unfolding task_ended
task_ended-Reports fresh now payload first done w =
    after-Silent
      (set_slot_state-Silent payload.attempt_id payload.slot_id SlotState.ready payload.profile.id
        "" w)
      (send_report-Reports fresh now payload "completed" "" TaskStatus.completed false _)
task_ended-Reports fresh now payload first broken w =
    fail_execution-Reports fresh now payload "runtime" "runtime_error" (not first) first w
task_ended-Reports fresh now payload first interrupted w =
    send_report-Reports fresh now payload "execution" failure_cancelled_by_client
      TaskStatus.cancelled false w

run_task-Reports :
    (fresh : String) (now : Time) (payload : ExecuteTaskPayload) (run : RuntimeRun)
    (w : WorkerModel)
    → Reports payload.attempt_id w (run_task fresh now payload run w)
unfolding run_task
run_task-Reports fresh now payload run w =
    let id = payload.attempt_id in
    let serving = set_slot_serving payload.slot_id payload.profile.id payload.task_id w in
    let started = enqueue (attempt_started payload.task_id id) serving in
    after-Silent
      (Silent-twice
        (set_slot_serving-Silent id payload.slot_id payload.profile.id payload.task_id w)
        (Silent-twice (enqueue-Silent id (attempt_started payload.task_id id) serving refl)
          (send_task_tokens-Silent id payload run.tokens 0 started)))
      (task_ended-Reports fresh now payload (not (is_nil run.tokens)) run.ending _)

run_unless-Reports :
    (refusal : Option TaskAdmissionFailure) (fresh : String) (now : Time)
    (payload : ExecuteTaskPayload) (run : RuntimeRun) (w : WorkerModel)
    → Reports payload.attempt_id w (run_unless refusal fresh now payload run w)
unfolding run_unless
run_unless-Reports (some (phase, reason)) fresh now payload run w =
    fail_execution-Reports fresh now payload phase reason true false w
run_unless-Reports none fresh now payload run w = run_task-Reports fresh now payload run w

-- A worker that executes a task offers exactly one report of its attempt to the queue, as its last
-- message, however the task ends and whatever keeps it from being let in; it is sent unless the queue
-- is full then. An attempt that is active already is not reported. The attempts that are active are the
-- same before and after.
pub execute_task_reports_once :
    (matches : String → String → Bool) (fresh : String) (now : Time) (payload : ExecuteTaskPayload)
    (run : RuntimeRun) (w : WorkerModel) (other : String)
    → let id = payload.attempt_id in
      let after = execute_task matches fresh now payload run w in
      let lost = w.is_full (after.offered - 1) in
      (reports_of id after.outbox ≡ (
        if has_key id w.active || lost
        then reports_of id w.outbox
        else suc (reports_of id w.outbox)))
      × (has_key other after.active ≡ has_key other w.active)
unfolding execute_task register_active_attempt if_registered unregister_active_attempt
execute_task_reports_once matches fresh now payload run w other =
    let id = payload.attempt_id in
    let known = record w { active = insert id true w.active } in
    let sent = run_unless-Reports (admit_task matches payload known) fresh now payload run known in
    elim (Bool-cases (has_key id w.active)) [
      | inl e ↦ rw e (refl, refl)
      | inr e ↦ rw e (
        sent.reports,
        ap (λ m. has_key other (delete id m)) sent.active
            ∙ delete_inserted id other true w.active e,
      )
    ]
