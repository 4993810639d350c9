-- ===== src/Accounting/Conserved.antt =====
-- internal/comrad/compute_accounting.go: what a charge takes from the consumer the producer gets,
-- and the test of the available balance.
use comrad.Prelude.{
  ℕ, ◌+◌, ◌%◌, ◌≤◌, ◌<◌, ◌≡◌, ◌↔◌, refl, String, true, false, not, ◌&&◌, ◌||◌, List, [], ◌∷◌, none,
  some, Int64, lt64, word, IsNatural, IsWord, rank, ◌==◌, if◌then◌else◌, arith, Bool-cases, inl,
  inr,
}
use comrad.Prelude.Dict.{Dict, lookup, get_or, insert, has_key, values, has_key-some}
use comrad.Types.{
  Time, Direction, User, Task, ComputeLedgerEntry, ComputeReport, is_completed, is_queued,
  is_running, zero_user, zero_node,
}
use comrad.Store.{Database}
use comrad.Accounting.{
  ledger_exists_for_report, moved, apply_ledger_balance, append_ledger_entry,
  append_consumption_ledger, append_production_ledger, charge, consumption_entry, production_entry,
  pending_of, pending_compute_cost, ensure_sufficient_available_balance,
}
use comrad.Accounting.Books.{Books, has_key-insert}
use comrad.Accounting.Preserved.{
  Books-of_same, append_ledger_entry_known, append_ledger_entry-Books,
}

-- The sum of all balances, as an exact number.
pub total : Dict User → ℕ
total [] = 0
total ((k, u) ∷ m) = u.compute_balance + total m

total-insert :
    (k : String) (u v : User) (m : Dict User)
    → lookup k m ≡ some u
    → total (insert k v m) + u.compute_balance ≡ total m + v.compute_balance
unfolding total insert lookup
total-insert k u v [] h = cc
total-insert k u v ((j, w) ∷ m) h = ground (arith, total-insert k u v m)

-- The sum of all balances after a debit and after a credit.
total-debit :
    (fresh : String) (clock : Time) (db : Database) (e : ComputeLedgerEntry)
    → Books db
    → has_key e.user_id db.users ≡ true
    → e.direction ≡ Direction.debit
    → (total (append_ledger_entry fresh clock db e).users + e.amount) % word ≡ total db.users % word
unfolding moved
total-debit fresh clock db e b h d =
    let (u, l) = has_key-some e.user_id db.users h in
    let u' : User = record u { compute_balance = moved e.direction u.compute_balance e.amount } in
    rw (append_ledger_entry_known fresh clock db e u b l)
      (ground (arith, total-insert e.user_id u u' db.users l, (b.accounts e.user_id u l).in_range))

total-credit :
    (fresh : String) (clock : Time) (db : Database) (e : ComputeLedgerEntry)
    → Books db
    → has_key e.user_id db.users ≡ true
    → e.direction ≡ Direction.credit
    → total (append_ledger_entry fresh clock db e).users % word ≡ (total db.users + e.amount) % word
unfolding moved
total-credit fresh clock db e b h d =
    let (u, l) = has_key-some e.user_id db.users h in
    let u' : User = record u { compute_balance = moved e.direction u.compute_balance e.amount } in
    rw (append_ledger_entry_known fresh clock db e u b l)
      (ground (arith, total-insert e.user_id u u' db.users l))

append_ledger_entry-nodes :
    (fresh : String) (clock : Time) (db : Database) (e : ComputeLedgerEntry)
    → (append_ledger_entry fresh clock db e).nodes ≡ db.nodes
unfolding append_ledger_entry apply_ledger_balance
append_ledger_entry-nodes fresh clock db e = ground arith

append_ledger_entry-has_key :
    (fresh : String) (clock : Time) (db : Database) (e : ComputeLedgerEntry) (k : String)
    → has_key k db.users ≡ true
    → has_key k (append_ledger_entry fresh clock db e).users ≡ true
unfolding append_ledger_entry apply_ledger_balance
append_ledger_entry-has_key fresh clock db e k h = ground (
  arith,
  has_key-insert (get_or zero_user e.user_id db.users).id k
      (record (get_or zero_user e.user_id db.users) {
        compute_balance =
            moved e.direction (get_or zero_user e.user_id db.users).compute_balance e.amount;
      })
      db.users h,
)

abbrev owner_of : Database → ComputeReport → String
owner_of db r = (get_or zero_node r.node_id db.nodes).owner_user_id

-- The books are in order, as after every account history: each account agrees with the ledger, whose
-- entries are of known users, and no user is nameless. The consumer and the owner of the node both have
-- accounts. Then charging a report leaves the sum of all balances as it was, in the arithmetic of
-- `int64`: the one is debited what the other is credited, or nobody is charged.
pub total-charge :
    (f g : String) (clock now : Time) (db : Database) (r : ComputeReport)
    → Books db
    → has_key r.user_id db.users ≡ true
    → (owner_of db r == "") ≡ false
    → has_key (owner_of db r) db.users ≡ true
    → total (charge f g clock db r now).users % word ≡ total db.users % word
unfolding charge append_consumption_ledger append_production_ledger
total-charge f g clock now db r b consumer named owner =
    elim (Bool-cases (
      is_completed r.status
      && lt64 0 r.compute_cost
      && not (ledger_exists_for_report db.compute_ledger r.id))) [
        | inr idle ↦ rw idle
        | inl due ↦
            let debited = append_ledger_entry f clock db (consumption_entry r now) in
            rw
              (
                due,
                consumer,
                append_ledger_entry-nodes f clock db (consumption_entry r now),
                named,
                append_ledger_entry-has_key f clock db (consumption_entry r now) (owner_of db r)
                    owner,
              )
              (omega (
                arith,
                total-debit f clock db (consumption_entry r now) b consumer refl,
                total-credit g clock (record debited { nodes = db.nodes })
                    (production_entry (owner_of db r) r now)
                    (Books-of_same debited _ refl refl
                      (append_ledger_entry-Books f clock db (consumption_entry r now) b consumer))
                    (append_ledger_entry-has_key f clock db (consumption_entry r now)
                      (owner_of db r) owner)
                    refl,
              ))
      ]

-- The exact cost of a user's queued and running tasks.
unfoldable pub open_cost : String → List Task → ℕ
open_cost user [] = 0
open_cost user (t ∷ ts) =
    let rest = open_cost user ts in
    if t.user_id == user && (is_queued t.status || is_running t.status)
    then t.compute_cost + rest
    else rest

pending_of-open_cost :
    (user : String) (ts : List Task) → pending_of user ts ≡ open_cost user ts % word
unfolding pending_of open_cost
pending_of-open_cost user [] = refl
pending_of-open_cost user (t ∷ ts) = ground (arith, pending_of-open_cost user ts)

-- The exact cost of the open tasks and the given cost together are in the range of `int64`, and so is
-- the balance, a signed value, less the cost of the open tasks. Then a task of positive cost passes the
-- balance check exactly if the balance is not negative and covers its cost together with that of the
-- user's open tasks: a debtor never passes.
pub ensure_sufficient_iff :
    (db : Database) (user : String) (cost : Int64)
    → 0 < cost
    → IsNatural (cost + open_cost user (values db.tasks))
    → IsWord (get_or zero_user user db.users).compute_balance
    → open_cost user (values db.tasks) ≤ rank (get_or zero_user user db.users).compute_balance
    → let balance = (get_or zero_user user db.users).compute_balance in
      (ensure_sufficient_available_balance db user cost true ≡ none)
      ↔ (IsNatural balance × (cost + open_cost user (values db.tasks) ≤ balance))
unfolding ensure_sufficient_available_balance pending_compute_cost
ensure_sufficient_iff db user cost p n b r = (
  λ h. ground (arith, pending_of-open_cost user (values db.tasks)),
  λ h. ground (arith, pending_of-open_cost user (values db.tasks)),
)
