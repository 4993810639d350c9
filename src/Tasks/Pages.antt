-- ===== src/Tasks/Pages.antt =====
-- Following the pages of a task listing.
use comrad.Prelude.{
  ℕ, zero, suc, ◌+◌, ◌-◌, ◌≤◌, ◌<◌, ◌≡◌, ap, subst, refl, String, true, false, List, [], ◌∷◌, ◌++◌,
  Option, some, Int64, half_word, lt64, le64, add64, arith, length, take, drop, length-take,
  length-drop, take_all, drop_all, take-drop, if◌then◌else◌, Bool-cases, ltb, Option-cases, IsWord,
  inl, inr,
}
use comrad.Types.{Time, Task}
use comrad.Store.{Database}
use comrad.Tasks.{
  TaskListQuery, task_page, bounded_limit, parse_int_or, non_negative_int, parse_task_list_query,
  task_matches_query, filter_tasks, sorted_tasks_newest,
}
use comrad.Tasks.Summary.{task_list_response}

bounded_limit_range :
    (atoi : String → Option Int64)
    → ((text : String) (n : Int64) → atoi text ≡ some n → IsWord n)
    → (value : String) → (1 ≤ bounded_limit atoi value) × (bounded_limit atoi value ≤ 500)
unfolding bounded_limit parse_int_or
bounded_limit_range atoi words value = elim (Option-cases (atoi value)) [
  | inl e ↦ ground (arith, e)
  | inr (n, e) ↦ ground (arith, e, words value n e)
]

-- What is read by asking again, one limit further, as long as the answer says that there is more.
unfoldable pub read_pages : ℕ → Database → TaskListQuery → Time → List Task
read_pages zero db query now = []
read_pages (suc fuel) db query now =
    let answer = task_list_response db query now in
    let next = read_pages fuel db (record query { offset = add64 query.offset query.limit }) now in
    if answer.has_more then answer.items ++ next else answer.items

-- A page that is not the last one.
task_page-more :
    (tasks : List Task) (offset limit : ℕ)
    → length tasks + limit < half_word
    → offset + limit < length tasks
    → (task_page tasks offset limit ≡ take limit (drop offset tasks))
      × (lt64 (add64 offset (length (task_page tasks offset limit))) (length tasks) ≡ true)
unfolding task_page
task_page-more tasks offset limit small more =
    let n = length tasks in
    let within : lt64 n (add64 offset limit) ≡ false = ground arith in
    let inside : le64 n offset ≡ false = ground arith in
    let size : add64 offset limit - offset ≡ limit = omega arith in
    let full : length (take limit (drop offset tasks)) ≡ limit =
      omega (arith, length-take limit (drop offset tasks), length-drop offset tasks) in
    let next : lt64 (add64 offset limit) n ≡ true = ground arith in
    rw (within, inside, size) (refl, rw full next)

-- The last page.
task_page-last :
    (tasks : List Task) (offset limit : ℕ)
    → length tasks + limit < half_word
    → offset < half_word
    → length tasks ≤ offset + limit
    → (task_page tasks offset limit ≡ drop offset tasks)
      × (lt64 (add64 offset (length (task_page tasks offset limit))) (length tasks) ≡ false)
unfolding task_page
task_page-last tasks offset limit small natural last =
    let n = length tasks in
    elim (Bool-cases (le64 n offset)) [
      | inl past ↦
          let none_left : drop offset tasks ≡ [] = drop_all offset tasks (ground (arith, past)) in
          let no_next : lt64 (add64 offset 0) n ≡ false = ground (arith, past) in
          rw (past, none_left) (refl, no_next)
      | inr inside ↦
          let past = add64 offset limit in
          let end : (if lt64 n past then n else past) ≡ n = ground (arith, inside) in
          let rest : take (n - offset) (drop offset tasks) ≡ drop offset tasks =
            take_all (n - offset) (drop offset tasks) (omega (arith, length-drop offset tasks)) in
          let size = length-drop offset tasks in
          let no_next : lt64 (add64 offset (n - offset)) n ≡ false = ground (arith, inside) in
          rw (inside, end, rest) (refl, rw size no_next)
    ]

-- The offset does not choose what matches.
filter_tasks-offset :
    (tasks : List Task) (query : TaskListQuery) (offset : Int64)
    → filter_tasks tasks (record query { offset = offset }) ≡ filter_tasks tasks query
unfolding filter_tasks task_matches_query
filter_tasks-offset [] query offset = refl
filter_tasks-offset (task ∷ tasks) query offset =
    ap (λ rest. if task_matches_query task query then task ∷ rest else rest)
      (filter_tasks-offset tasks query offset)

-- Following the pages of a query reads the tasks that match it from its offset on.
follow :
    (fuel : ℕ) (db : Database) (query : TaskListQuery) (now : Time)
    → let tasks = filter_tasks (sorted_tasks_newest db) query in
      length tasks + query.limit < half_word
      → 1 ≤ query.limit
      → query.offset < half_word
      → length tasks ≤ query.offset + fuel
      → 1 ≤ fuel
      → read_pages fuel db query now ≡ drop query.offset tasks
unfolding read_pages task_list_response
follow zero db query now small some_items natural enough go = absurd (omega (arith, go))
follow (suc fuel) db query now small some_items natural enough go =
    let tasks = filter_tasks (sorted_tasks_newest db) query in
    let next = record query { offset = add64 query.offset query.limit } in
    elim (Bool-cases (ltb (query.offset + query.limit) (length tasks))) [
      | inl e ↦
          let (page, more) =
            task_page-more tasks query.offset query.limit small (ground (arith, e)) in
          let forward : add64 query.offset query.limit ≡ query.offset + query.limit =
            ground (arith, e) in
          let same =
            filter_tasks-offset (sorted_tasks_newest db) query (add64 query.offset query.limit) in
          let later : read_pages fuel db next now ≡ drop (add64 query.offset query.limit) tasks =
            subst (λ ts. read_pages fuel db next now ≡ drop (add64 query.offset query.limit) ts)
              same
              (follow fuel db next now (rw same small) some_items (ground (arith, e))
                (rw same (ground (arith, e))) (ground (arith, e))) in
          let further : read_pages fuel db next now ≡ drop (query.offset + query.limit) tasks =
            subst (λ o. read_pages fuel db next now ≡ drop o tasks) forward later in
          rw (more, further, page) (take-drop query.limit query.offset tasks)
      | inr e ↦
          let (page, last) =
            task_page-last tasks query.offset query.limit small natural (ground (arith, e)) in
          rw (last, page) refl
    ]

non_negative_int_range :
    (atoi : String → Option Int64)
    → ((text : String) (n : Int64) → atoi text ≡ some n → IsWord n)
    → (value : String) → non_negative_int atoi value < half_word
unfolding non_negative_int parse_int_or
non_negative_int_range atoi words value = elim (Option-cases (atoi value)) [
  | inl e ↦ ground (arith, e)
  | inr (n, e) ↦ ground (arith, e, words value n e)
]

-- Whatever the texts of a query say, asking again one limit further as long as the answer has more
-- comes to an end, and reads the matching tasks from the query's offset on, each once, in order.
-- Numbers are read as signed 64-bit values, and the matching tasks and a page fit one.
pub read_pages_all :
    (atoi : String → Option Int64)
    → ((text : String) (n : Int64) → atoi text ≡ some n → IsWord n)
    → (get : String → String) (db : Database) (now : Time) (fuel : ℕ)
    → let query = parse_task_list_query atoi get in
      let tasks = filter_tasks (sorted_tasks_newest db) query in
      length tasks + 500 < half_word
      → length tasks < fuel
      → read_pages fuel db query now ≡ drop query.offset tasks
unfolding parse_task_list_query
read_pages_all atoi words get db now fuel small enough =
    let query = parse_task_list_query atoi get in
    let (some_items, at_most) = bounded_limit_range atoi words (get "limit") in
    let natural = non_negative_int_range atoi words (get "offset") in
    follow fuel db query now (omega (arith, small, at_most)) some_items natural
      (omega (arith, enough)) (omega (arith, enough))
