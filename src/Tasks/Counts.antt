-- ===== src/Tasks/Counts.antt =====
-- The summary of a task listing counts every task once.
use comrad.Prelude.{
  ◌%◌, word, IsWord, ℕ, ◌+◌, ◌≡◌, ap, sym, subst, ◌∙◌, refl, String, Bool, List, [], ◌∷◌, some,
  arith, length, keep, All, ◌==◌, eq_iff, Bool-cases, inl, inr,
}
use comrad.Prelude.Dict.{Dict, lookup, get_or, insert, values, get_or-insert}
use comrad.Prelude.Distinct.{Distinct, Distinct-insert, All-entries}
use comrad.Prelude.Sort.{sort_stable, sort_insert, All-sort_stable}
use comrad.Types.{
  Time, Task, TaskStatus, ComputeReport, is_queued, is_running, is_completed, is_failed,
  is_cancelled,
}
use comrad.Tasks.Summary.{
  StatusCounts, TaskUserSummary, count_task_status, no_counts, summary_user, with_task,
  new_user_summary, add_task_to_summary, add_tasks, sorted_user_task_summaries, summarize_tasks,
  user_id_before,
}

-- The tasks of a status, and those that count for a user.
abbrev pub of_status : (TaskStatus → Bool) → List Task → ℕ
of_status p tasks = length (keep (λ (t : Task). p t.status) tasks)

abbrev pub of_user : String → List Task → List Task
of_user user tasks = keep (λ (t : Task). summary_user t == user) tasks

-- A user's summary once the tasks are counted, all of them the user's.
unfoldable pub with_all : List Task → TaskUserSummary → TaskUserSummary
with_all [] s = s
with_all (t ∷ tasks) s = with_all tasks (with_task t s)

-- The counts are those of the tasks.
unfoldable pub Counts : StatusCounts → List Task → Type 0
Counts c tasks =
    (c.queued ≡ of_status is_queued tasks)
    × (c.running ≡ of_status is_running tasks)
    × (c.completed ≡ of_status is_completed tasks)
    × (c.failed ≡ of_status is_failed tasks)
    × (c.cancelled ≡ of_status is_cancelled tasks)

-- Counting more tasks on top of what is counted.
unfoldable pub Added : StatusCounts → StatusCounts → List Task → Type 0
Added c before tasks =
    (c.queued ≡ of_status is_queued tasks + before.queued)
    × (c.running ≡ of_status is_running tasks + before.running)
    × (c.completed ≡ of_status is_completed tasks + before.completed)
    × (c.failed ≡ of_status is_failed tasks + before.failed)
    × (c.cancelled ≡ of_status is_cancelled tasks + before.cancelled)

add_tasks-Added :
    (tasks : List Task) (c : StatusCounts) (m : Dict TaskUserSummary)
    → Added (add_tasks tasks (c, m)).0 c tasks
unfolding add_tasks add_task_to_summary Added count_task_status
add_tasks-Added [] c m = ground arith
add_tasks-Added (task ∷ tasks) c m =
    let user = summary_user task in
    let m' = insert user (with_task task (get_or (new_user_summary user) user m)) m in
    let later = add_tasks-Added tasks (count_task_status task.status c) m' in ground (arith, later)

-- Each user's tasks are counted in order.
add_tasks-user :
    (user : String) (tasks : List Task) (c : StatusCounts) (m : Dict TaskUserSummary)
    → get_or (new_user_summary user) user (add_tasks tasks (c, m)).1
      ≡ with_all (of_user user tasks) (get_or (new_user_summary user) user m)
unfolding add_tasks add_task_to_summary with_all
add_tasks-user user [] c m = refl
add_tasks-user user (task ∷ tasks) c m =
    let own = summary_user task in
    let counted = with_task task (get_or (new_user_summary own) own m) in
    let later =
      add_tasks-user user tasks (count_task_status task.status c) (insert own counted m) in
    let up = get_or-insert (new_user_summary user) own user counted m in
    elim (Bool-cases (own == user)) [
      | inl e ↦
          let same : own ≡ user = ground (arith, e, eq_iff own user) in
          let mine : counted ≡ with_task task (get_or (new_user_summary user) user m) =
            ap (λ u. with_task task (get_or (new_user_summary u) u m)) same in
          rw e (later ∙ ap (with_all (of_user user tasks)) ((rw e at up) ∙ mine))
      | inr e ↦ rw e (later ∙ ap (with_all (of_user user tasks)) (rw e at up))
    ]

add_tasks-Distinct :
    (tasks : List Task) (c : StatusCounts) (m : Dict TaskUserSummary)
    → Distinct m
    → Distinct (add_tasks tasks (c, m)).1
unfolding add_tasks add_task_to_summary
add_tasks-Distinct [] c m d = d
add_tasks-Distinct (task ∷ tasks) c m d =
    let user = summary_user task in
    let counted = with_task task (get_or (new_user_summary user) user m) in
    add_tasks-Distinct tasks (count_task_status task.status c) (insert user counted m)
      (Distinct-insert user counted m d)

unfoldable pub sum_totals : List TaskUserSummary → ℕ
sum_totals [] = 0
sum_totals (u ∷ users) = u.total + sum_totals users

sum_totals-insert :
    (user : String) (s : TaskUserSummary) (m : Dict TaskUserSummary)
    → sum_totals (values (insert user s m)) + (get_or (new_user_summary user) user m).total
      ≡ s.total + sum_totals (values m)
unfolding sum_totals insert values get_or lookup
sum_totals-insert user s [] = omega arith
sum_totals-insert user s ((j, w) ∷ m) = ground (arith, sum_totals-insert user s m)

sum_totals-sort :
    (users : List TaskUserSummary)
    → sum_totals (sort_stable user_id_before users) ≡ sum_totals users
unfolding sum_totals sort_stable sort_insert
sum_totals-sort [] = refl
sum_totals-sort (u ∷ users) =
    insert_sum u (sort_stable user_id_before users) ∙ ap (λ n. u.total + n) (sum_totals-sort users)
  where
    insert_sum :
        (u : TaskUserSummary) (users : List TaskUserSummary)
        → sum_totals (sort_insert user_id_before u users) ≡ u.total + sum_totals users
    insert_sum u [] = omega arith
    insert_sum u (w ∷ users) = ground (arith, insert_sum u users)

-- Every task is one of its user's.
sum_totals-add_tasks :
    (tasks : List Task) (c : StatusCounts) (m : Dict TaskUserSummary)
    → sum_totals (values (add_tasks tasks (c, m)).1) ≡ length tasks + sum_totals (values m)
unfolding add_tasks add_task_to_summary with_task
sum_totals-add_tasks [] c m = omega arith
sum_totals-add_tasks (task ∷ tasks) c m =
    let user = summary_user task in
    let counted = with_task task (get_or (new_user_summary user) user m) in
    omega (
      arith,
      sum_totals-add_tasks tasks (count_task_status task.status c) (insert user counted m),
      sum_totals-insert user counted m,
    )

with_all-user_id :
    (tasks : List Task) (s : TaskUserSummary) → (with_all tasks s).user_id ≡ s.user_id
unfolding with_all with_task
with_all-user_id [] s = refl
with_all-user_id (t ∷ tasks) s = with_all-user_id tasks (with_task t s)

-- The summary of a user as a fold over the tasks.
unfoldable pub IsFoldOf : List Task → TaskUserSummary → Type 0
IsFoldOf tasks s = s ≡ with_all (of_user s.user_id tasks) (new_user_summary s.user_id)

add_tasks-IsFoldOf :
    (tasks : List Task) (user : String) (s : TaskUserSummary)
    → lookup user (add_tasks tasks (no_counts, [])).1 ≡ some s
    → IsFoldOf tasks s
unfolding IsFoldOf get_or lookup
add_tasks-IsFoldOf tasks user s found =
    let counted = add_tasks-user user tasks no_counts [] in
    let all : s ≡ with_all (of_user user tasks) (new_user_summary user) = rw found at counted in
    let own : s.user_id ≡ user =
      ap (λ (x : TaskUserSummary). x.user_id) all
      ∙ with_all-user_id (of_user user tasks) (new_user_summary user) in
    subst (λ u. s ≡ with_all (of_user u tasks) (new_user_summary u)) (sym own) all

All-values :
    (P : TaskUserSummary → Type 0) (m : Dict TaskUserSummary)
    → All (λ (e : String × TaskUserSummary). P e.1) m
    → All P (values m)
unfolding values
All-values P [] h = tt
All-values P ((k, v) ∷ m) h = (h.0, All-values P m h.1)

-- The sum of the costs, as an exact number.
unfoldable pub sum_costs : List Task → ℕ
sum_costs [] = 0
sum_costs (t ∷ tasks) = t.compute_cost + sum_costs tasks

with_all-total :
    (tasks : List Task) (s : TaskUserSummary) → (with_all tasks s).total ≡ length tasks + s.total
unfolding with_all with_task
with_all-total [] s = omega arith
with_all-total (t ∷ tasks) s = omega (arith, with_all-total tasks (with_task t s))

with_all-cost :
    (tasks : List Task) (s : TaskUserSummary)
    → IsWord s.compute_cost
    → (with_all tasks s).compute_cost ≡ (sum_costs tasks + s.compute_cost) % word
unfolding with_all with_task sum_costs
with_all-cost [] s h = omega (arith, h)
with_all-cost (t ∷ tasks) s h = omega (arith, with_all-cost tasks (with_task t s) (omega arith))

with_all-Added :
    (tasks : List Task) (s : TaskUserSummary) → Added (with_all tasks s).counts s.counts tasks
unfolding with_all with_task Added count_task_status
with_all-Added [] s = ground arith
with_all-Added (t ∷ tasks) s = ground (arith, with_all-Added tasks (with_task t s))

-- The line of a user tells of that user's tasks how many they are, how many of each status, and what
-- they cost together, in the arithmetic of `int64`.
pub record IsSummaryOf (tasks : List Task) (s : TaskUserSummary) : Type 0 where
  pub total : s.total ≡ length (of_user s.user_id tasks)
  pub counts : Counts s.counts (of_user s.user_id tasks)
  pub cost : s.compute_cost ≡ sum_costs (of_user s.user_id tasks) % word

fold-IsSummaryOf :
    (tasks : List Task) (s : TaskUserSummary) → IsFoldOf tasks s → IsSummaryOf tasks s
unfolding IsFoldOf Counts Added
fold-IsSummaryOf tasks s fold =
    let own = of_user s.user_id tasks in
    let start = new_user_summary s.user_id in
    let added = with_all-Added own start in
    let counted : Added s.counts start.counts own =
      subst (λ (x : TaskUserSummary). Added x.counts start.counts own) (sym fold) added in
    record {
      total = ap (λ (x : TaskUserSummary). x.total) fold ∙ with_all-total own start ∙ omega arith;
      counts = ground (arith, counted);
      cost =
          ap (λ (x : TaskUserSummary). x.compute_cost) fold
          ∙ with_all-cost own start (omega arith)
          ∙ omega arith;
    }

-- The summary of a list of tasks: each status count is the number of the tasks of that status; each
-- user's line has the number of that user's tasks, that of each status and the sum of their costs, which
-- wraps as `int64` does; and the lines' totals add up to the number of tasks.
pub summarize_tasks-Counts :
    (tasks : List Task) (reports : Dict ComputeReport) (now : Time)
    → let summary = summarize_tasks tasks reports now in
      Counts summary.counts tasks
      × All (IsSummaryOf tasks) summary.by_user
      × (sum_totals summary.by_user ≡ length tasks)
unfolding summarize_tasks sorted_user_task_summaries Counts Added sum_totals values
summarize_tasks-Counts tasks reports now =
    let by_user = (add_tasks tasks (no_counts, [])).1 in
    let counted = add_tasks-Added tasks no_counts [] in
    let lines =
      All-entries (λ k v. IsSummaryOf tasks v) by_user (add_tasks-Distinct tasks no_counts [] tt)
        (λ user s found. fold-IsSummaryOf tasks s (add_tasks-IsFoldOf tasks user s found)) in
    (
      ground (arith, counted),
      All-sort_stable user_id_before (IsSummaryOf tasks) (values by_user)
          (All-values (IsSummaryOf tasks) by_user lines),
      sum_totals-sort (values by_user) ∙ sum_totals-add_tasks tasks no_counts [] ∙ omega arith,
    )
