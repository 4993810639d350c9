-- ===== src/Tasks/Summary.antt =====
-- internal/comrad/manager_tasks.go: the counts of tasks by status and by user, and the answer to a
-- listing.
use comrad.Prelude.{
  ℕ, suc, ◌-◌, String, Bool, ◌&&◌, List, [], ◌∷◌, Int64, lt64, add64, text_ltb, ◌==◌, if◌then◌else◌,
  length,
}
use comrad.Prelude.Dict.{Dict, values, get_or, insert}
use comrad.Prelude.Sets.{contains}
use comrad.Prelude.Sort.{sort_stable}
use comrad.Types.{Time, Task, TaskStatus, Attempt, ComputeReport, is_failed, after}
use comrad.Store.{Database}
use comrad.Tasks.{
  TaskListQuery, filter_tasks, task_page, sorted_tasks, sorted_tasks_newest, task_ids,
  related_attempts, related_reports,
}

-- The five counts that `countTaskStatus` is given the addresses of.
pub record StatusCounts : Type 0 where
  pub queued : ℕ
  pub running : ℕ
  pub completed : ℕ
  pub failed : ℕ
  pub cancelled : ℕ

abbrev pub no_counts : StatusCounts
no_counts = record { queued = 0; running = 0; completed = 0; failed = 0; cancelled = 0 }

unfoldable pub count_task_status : TaskStatus → StatusCounts → StatusCounts
count_task_status TaskStatus.queued c = record c { queued = suc c.queued }
count_task_status TaskStatus.running c = record c { running = suc c.running }
count_task_status TaskStatus.completed c = record c { completed = suc c.completed }
count_task_status TaskStatus.failed c = record c { failed = suc c.failed }
count_task_status TaskStatus.cancelled c = record c { cancelled = suc c.cancelled }
count_task_status (TaskStatus.other s) c = c

pub record TaskUserSummary : Type 0 where
  pub user_id : String
  pub total : ℕ
  pub counts : StatusCounts
  pub compute_cost : Int64

pub record TaskSummary : Type 0 where
  pub total : ℕ
  pub counts : StatusCounts
  pub failures_last_hour : ℕ
  pub by_user : List TaskUserSummary

abbrev pub new_user_summary : String → TaskUserSummary
new_user_summary user = record { user_id = user; total = 0; counts = no_counts; compute_cost = 0 }

-- The user that a task counts for.
unfoldable pub summary_user : Task → String
summary_user task = if task.user_id == "" then "unknown" else task.user_id

-- What `addTaskToSummary` does to the summary of the task's user.
unfoldable pub with_task : Task → TaskUserSummary → TaskUserSummary
with_task task user = record user {
  total = suc user.total;
  compute_cost = add64 user.compute_cost task.compute_cost;
  counts = count_task_status task.status user.counts;
}

-- `addTaskToSummary`: the counts of all tasks, and the summaries of the users.
unfoldable pub add_task_to_summary :
    Task → StatusCounts × Dict TaskUserSummary → StatusCounts × Dict TaskUserSummary
add_task_to_summary task (counts, by_user) =
    let user = summary_user task in
    (
      count_task_status task.status counts,
      insert user (with_task task (get_or (new_user_summary user) user by_user)) by_user,
    )

-- The loop of `summarizeTasks`.
unfoldable pub add_tasks :
    List Task → StatusCounts × Dict TaskUserSummary → StatusCounts × Dict TaskUserSummary
add_tasks [] acc = acc
add_tasks (task ∷ tasks) acc = add_tasks tasks (add_task_to_summary task acc)

unfoldable pub user_id_before : TaskUserSummary → TaskUserSummary → Bool
user_id_before a b = text_ltb a.user_id b.user_id

unfoldable pub sorted_user_task_summaries : Dict TaskUserSummary → List TaskUserSummary
sorted_user_task_summaries by_user = sort_stable user_id_before (values by_user)

-- An hour in nanoseconds.
abbrev pub hour : ℕ
hour = 3600000000000

recent_failures : List String → Time → List ComputeReport → ℕ
recent_failures ids cutoff [] = 0
recent_failures ids cutoff (r ∷ reports) =
    let rest = recent_failures ids cutoff reports in
    if contains ids r.task_id && is_failed r.status && after r.created_at cutoff
    then suc rest
    else rest

unfoldable pub failures_last_hour : List Task → Dict ComputeReport → Time → ℕ
unfolding recent_failures
failures_last_hour tasks reports now =
    recent_failures (task_ids tasks) (now - hour) (values reports)

unfoldable pub summarize_tasks : List Task → Dict ComputeReport → Time → TaskSummary
unfolding add_tasks
summarize_tasks tasks reports now =
    let (counts, by_user) = add_tasks tasks (no_counts, []) in
    record {
      total = length tasks;
      counts = counts;
      failures_last_hour = failures_last_hour tasks reports now;
      by_user = sorted_user_task_summaries by_user;
    }

unfoldable pub summarize_database_tasks : Database → Time → TaskSummary
summarize_database_tasks db now = summarize_tasks (sorted_tasks db) db.reports now

pub record TaskListResponse : Type 0 where
  pub items : List Task
  pub attempts : List Attempt
  pub reports : List ComputeReport
  pub total : ℕ
  pub limit : Int64
  pub offset : Int64
  pub has_more : Bool
  pub summary : TaskSummary

-- `taskListResponse`, at the time that the summary reads.
unfoldable pub task_list_response : Database → TaskListQuery → Time → TaskListResponse
task_list_response db query now =
    let tasks = filter_tasks (sorted_tasks_newest db) query in
    let page = task_page tasks query.offset query.limit in
    let ids = task_ids page in
    record {
      items = page;
      attempts = related_attempts db ids;
      reports = related_reports db ids;
      total = length tasks;
      limit = query.limit;
      offset = query.offset;
      has_more = lt64 (add64 query.offset (length page)) (length tasks);
      summary = summarize_tasks tasks db.reports now;
    }
