-- ===== src/Client/Covered.antt =====
-- internal/comrad/manager_client.go: a chat is only taken if its user can pay for all open ones.
use comrad.Prelude.{
  ◌+◌, ◌<◌, ◌≤◌, ◌≡◌, String, true, false, [], ◌∷◌, none, arith, ◌==◌, eq_refl, IsNatural, IsWord,
  rank, Option-cases, inl, inr,
}
use comrad.Prelude.Dict.{Dict, get_or, has_key, insert, values, lookup}
use comrad.Types.{Task, is_queued, zero_user}
use comrad.Store.{Database}
use comrad.Accounting.{ensure_sufficient_available_balance}
use comrad.Accounting.Conserved.{open_cost, ensure_sufficient_iff}
use comrad.Client.{store_new_task, stored_unless}

open_cost-insert :
    (user id : String) (task : Task) (m : Dict Task)
    → has_key id m ≡ false
    → (task.user_id == user) ≡ true
    → is_queued task.status ≡ true
    → open_cost user (values (insert id task m)) ≡ task.compute_cost + open_cost user (values m)
unfolding open_cost values insert has_key lookup
open_cost-insert user id task [] new own queued = ground arith
open_cost-insert user id task ((j, t) ∷ m) new own queued =
    ground (arith, open_cost-insert user id task m)

-- With balances enforced, a queued task of positive cost comes under a fresh id, and it is stored
-- without an error. Then the balance of its user is not negative and covers the cost of all open tasks of
-- the user, the new one included. Before, the costs together are in the range of `int64`, and so is the
-- balance, a signed value, less the cost of the open tasks.
pub store_new_task-covered :
    (task : Task) (db : Database)
    → has_key task.id db.tasks ≡ false
    → is_queued task.status ≡ true
    → 0 < task.compute_cost
    → IsNatural (task.compute_cost + open_cost task.user_id (values db.tasks))
    → IsWord (get_or zero_user task.user_id db.users).compute_balance
    → open_cost task.user_id (values db.tasks)
      ≤ rank (get_or zero_user task.user_id db.users).compute_balance
    → (store_new_task task true db).1 ≡ none
    → let after = (store_new_task task true db).0 in
      let balance = (get_or zero_user task.user_id after.users).compute_balance in
      IsNatural balance × (open_cost task.user_id (values after.tasks) ≤ balance)
unfolding store_new_task stored_unless
store_new_task-covered task db new queued costs small word_sized above accepted =
    let check = ensure_sufficient_available_balance db task.user_id task.compute_cost true in
    elim (Option-cases check) [
      | inl e ↦
          let covers =
            (ensure_sufficient_iff db task.user_id task.compute_cost costs small word_sized above).0
              e in
          let added =
            open_cost-insert task.user_id task.id task db.tasks new (eq_refl task.user_id) queued in
          rw e (covers.0, ground (arith, covers.1, added))
      | inr (x, e) ↦ absurd (ground (arith, accepted, e))
    ]
