-- ===== src/Tasks.antt =====
-- internal/comrad/manager_tasks.go, with the listings of manager_state.go: the tasks that an
-- administrator asks for, page by page, and their summary. The number that `strconv.Atoi` reads in a
-- text, if any, is an argument of what parses it. A count of tasks is an unbounded number; the
-- offset and the limit of a query are signed 64-bit values.
pub mod Summary
pub mod Pages
pub mod Counts
use comrad.Prelude.{
  ℕ, suc, ◌+◌, ◌-◌, String, Bool, true, false, not, ◌&&◌, ◌||◌, List, [], ◌∷◌, Option, none, some,
  Int64, lt64, le64, add64, ltb, eqb, text_ltb, ◌==◌, if◌then◌else◌, length, take, drop, keep,
}
use comrad.Prelude.Dict.{values}
use comrad.Prelude.Sets.{contains}
use comrad.Prelude.Sort.{sort_stable}
use comrad.Types.{Task, Attempt, ComputeReport, before, status_text}
use comrad.Store.{Database}

-- The limits of a page.
abbrev pub admin_state_task_limit : ℕ
admin_state_task_limit = 50

abbrev pub admin_task_default_limit : Int64
admin_task_default_limit = 50

abbrev pub admin_task_max_limit : Int64
admin_task_max_limit = 500

pub record TaskListQuery : Type 0 where
  pub limit : Int64
  pub offset : Int64
  pub status : String
  pub user_id : String
  pub profile_id : String
  pub task_id : String

module _ (atoi : String → Option Int64) where
  parsed_or : Int64 → Option Int64 → Int64
  parsed_or fallback none = fallback
  parsed_or fallback (some n) = n

  unfoldable pub parse_int_or : String → Int64 → Int64
  unfolding parsed_or
  parse_int_or value fallback = if value == "" then fallback else parsed_or fallback (atoi value)

  unfoldable pub bounded_limit : String → Int64
  unfolding parse_int_or
  bounded_limit value =
      let limit = parse_int_or value admin_task_default_limit in
      if lt64 limit 1
      then admin_task_default_limit
      else if lt64 admin_task_max_limit limit
      then admin_task_max_limit
      else limit

  unfoldable pub non_negative_int : String → Int64
  unfolding parse_int_or
  non_negative_int value = let offset = parse_int_or value 0 in if lt64 offset 0 then 0 else offset

  -- `parseTaskListQuery`, where `get` reads a value of the URL's query.
  unfoldable pub parse_task_list_query : (String → String) → TaskListQuery
  unfolding bounded_limit non_negative_int
  parse_task_list_query get = record {
    limit = bounded_limit (get "limit");
    offset = non_negative_int (get "offset");
    status = get "status";
    user_id = get "userId";
    profile_id = get "profileId";
    task_id = get "taskId";
  }

abbrev pub string_matches : String → String → Bool
string_matches filter value = filter == "" || filter == value

unfoldable pub task_matches_query : Task → TaskListQuery → Bool
task_matches_query task query =
    string_matches query.task_id task.id
    && string_matches query.status (status_text task.status)
    && string_matches query.user_id task.user_id
    && string_matches query.profile_id task.profile_id

unfoldable pub filter_tasks : List Task → TaskListQuery → List Task
filter_tasks [] query = []
filter_tasks (task ∷ tasks) query =
    let rest = filter_tasks tasks query in
    if task_matches_query task query then task ∷ rest else rest

-- `tasks[offset:end]`.
unfoldable pub task_page : List Task → Int64 → Int64 → List Task
task_page tasks offset limit =
    let n = length tasks in
    let past = add64 offset limit in
    let end = if lt64 n past then n else past in
    if le64 n offset then [] else take (end - offset) (drop offset tasks)

-- The listings, oldest first and newest first. `sort.Slice` leaves the order of ties open.
created_before : Task → Task → Bool
created_before a b = before a.created_at b.created_at

unfoldable pub sorted_tasks : Database → List Task
unfolding created_before
sorted_tasks db = sort_stable created_before (values db.tasks)

newer : Task → Task → Bool
newer a b =
    if eqb a.created_at b.created_at then text_ltb b.id a.id else before b.created_at a.created_at

unfoldable pub sorted_tasks_newest : Database → List Task
unfolding newer sorted_tasks
sorted_tasks_newest db = sort_stable newer (sorted_tasks db)

unfoldable pub task_ids : List Task → List String
task_ids [] = []
task_ids (task ∷ tasks) = task.id ∷ task_ids tasks

started_before : Attempt → Attempt → Bool
started_before a b = before a.started_at b.started_at

unfoldable pub related_attempts : Database → List String → List Attempt
unfolding started_before
related_attempts db ids =
    sort_stable started_before (keep (λ (a : Attempt). contains ids a.task_id) (values db.attempts))

reported_before : ComputeReport → ComputeReport → Bool
reported_before a b = before a.created_at b.created_at

unfoldable pub related_reports : Database → List String → List ComputeReport
unfolding reported_before
related_reports db ids =
    sort_stable reported_before
      (keep (λ (r : ComputeReport). contains ids r.task_id) (values db.reports))

-- `stateTaskWindow`: the newest tasks that the dashboard's state shows, and whether it leaves any out.
unfoldable pub state_task_window : Database → List Task × List Attempt × List ComputeReport × Bool
state_task_window db =
    let all = sorted_tasks db in
    let truncated = ltb admin_state_task_limit (length all) in
    let tasks = if truncated then drop (length all - admin_state_task_limit) all else all in
    let ids = task_ids tasks in (tasks, related_attempts db ids, related_reports db ids, truncated)
