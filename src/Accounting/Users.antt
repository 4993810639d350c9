-- ===== src/Accounting/Users.antt =====
-- internal/comrad/manager_accounting_admin.go: the administrator's operations keep the books, and
-- so does any history of the operations that touch an account.
use comrad.Prelude.{
  ◌≡◌, ◌≢◌, refl, String, false, ◌==◌, if◌then◌else◌, arith, eq_iff, Bool-cases, Option-cases, inl,
  inr,
}
use comrad.Prelude.Dict.{lookup, has_key, insert, lookup_of_not_has_key}
use comrad.Types.{Time, User, ComputeLedgerEntry, ComputeReport}
use comrad.Store.{Database, empty_database}
use comrad.Accounting.{
  priced, apply_report_accounting, store_admin_adjustment, CreateUserRequest, new_user, create_user,
  UpdateUserRequest, updated_user, update_user,
}
use comrad.Accounting.Books.{Books, Agrees, no_entries}
use comrad.Accounting.Preserved.{
  Books-of_same, insert-Books, append_ledger_entry-Books, charge-Books,
}

new_user_named :
    (fresh : String) (now : Time) (req : CreateUserRequest)
    → fresh ≢ ""
    → (new_user fresh now req).id ≢ ""
unfolding new_user
new_user_named fresh now req n = λ e. elim (Bool-cases (req.id == "")) [
  | inl h ↦ n (ground arith)
  | inr h ↦ ground (arith, eq_iff req.id "")
]

new_user-Agrees :
    (fresh : String) (now : Time) (req : CreateUserRequest) (db : Database)
    → Books db
    → has_key (new_user fresh now req).id db.users ≡ false
    → Agrees (new_user fresh now req).id (new_user fresh now req) db.compute_ledger
unfolding new_user
new_user-Agrees fresh now req db b h =
    let free = lookup_of_not_has_key (if req.id == "" then fresh else req.id) db.users h in
    let (d, c) =
      no_entries (if req.id == "" then fresh else req.id) db.users db.compute_ledger free b.known in
    record { own_id = refl; in_range = omega arith; balanced = rw (d, c) }

create_user-Books :
    (fresh : String) (now : Time) (req : CreateUserRequest) (db : Database)
    → fresh ≢ ""
    → Books db
    → Books (create_user (new_user fresh now req) db).0
unfolding create_user
create_user-Books fresh now req db n b =
    elim (Bool-cases (has_key (new_user fresh now req).id db.users)) [
      | inl h ↦ rw h b
      | inr h ↦ rw h (
          Books-of_same _ _ refl refl (
            insert-Books db (new_user fresh now req).id (new_user fresh now req) b
              (new_user_named fresh now req n) (new_user-Agrees fresh now req db b h)))
    ]

updated_user-Books :
    (req : UpdateUserRequest) (now : Time) (db : Database)
    → (req.id == "") ≡ false
    → Books db
    → Books (updated_user req now db (lookup req.id db.users)).0
unfolding updated_user
updated_user-Books req now db n b = elim (Option-cases (lookup req.id db.users)) [
  | inl e ↦ rw (e, updated_user) b
  | inr (u, e) ↦
      let a = b.accounts req.id u e in
      let u' : User = record u {
        name = if req.name == "" then u.name else req.name;
        disabled = req.disabled;
      } in
      rw (e, updated_user)
        (Books-of_same (record db { users = insert u.id u' db.users }) _ refl refl
          (insert-Books db u.id u' b (λ q. ground (arith, a.own_id, eq_iff req.id ""))
            (record { own_id = refl; in_range = a.in_range; balanced = rw a.own_id a.balanced })))
]

update_user-Books :
    (req : UpdateUserRequest) (now : Time) (db : Database)
    → Books db
    → Books (update_user req now db).0
unfolding update_user
update_user-Books req now db b = elim (Bool-cases (req.id == "")) [
  | inl h ↦ rw h b
  | inr h ↦ rw h (updated_user-Books req now db h b)
]

store_admin_adjustment-Books :
    (fresh : String) (clock : Time) (entry : ComputeLedgerEntry) (db : Database)
    → Books db
    → Books (store_admin_adjustment fresh clock entry db).0
unfolding store_admin_adjustment
store_admin_adjustment-Books fresh clock entry db b =
    elim (Bool-cases (has_key entry.user_id db.users)) [
      | inl h ↦
          rw h (Books-of_same _ _ refl refl (append_ledger_entry-Books fresh clock db entry b h))
      | inr h ↦ rw h b
    ]

-- The operations that touch users or the ledger, and any other change of the database.
pub data AccountStep : Database → Database → Type 0 where
  creates :
      (fresh : String) (now : Time) (req : CreateUserRequest) (db : Database)
      → fresh ≢ ""
      → AccountStep db (create_user (new_user fresh now req) db).0
  updates :
      (req : UpdateUserRequest) (now : Time) (db : Database)
      → AccountStep db (update_user req now db).0
  adjusts :
      (fresh : String) (clock : Time) (entry : ComputeLedgerEntry) (db : Database)
      → AccountStep db (store_admin_adjustment fresh clock entry db).0
  reports :
      (f g : String) (clock : Time) (report : ComputeReport) (now : Time) (db : Database)
      → AccountStep db (apply_report_accounting f g clock db report now).0
  elsewhere :
      (db db' : Database)
      → db'.users ≡ db.users
      → db'.compute_ledger ≡ db.compute_ledger
      → AccountStep db db'

pub data AccountHistory (start : Database) : Database → Type 0 where
  here : AccountHistory start start
  next :
      {db db' : Database} → AccountHistory start db → AccountStep db db' → AccountHistory start db'

AccountStep-Books : {db db' : Database} → AccountStep db db' → Books db → Books db'
unfolding apply_report_accounting
AccountStep-Books (creates fresh now req db n) b = create_user-Books fresh now req db n b
AccountStep-Books (updates req now db) b = update_user-Books req now db b
AccountStep-Books (adjusts fresh clock entry db) b =
    store_admin_adjustment-Books fresh clock entry db b
AccountStep-Books (reports f g clock report now db) b =
    charge-Books f g clock db (priced db report) now b
AccountStep-Books (elsewhere db db' u l) b = Books-of_same db db' u l b

empty_database-Books : Books empty_database
unfolding empty_database lookup
empty_database-Books = record { accounts = λ k u h. cc; nameless = refl; known = tt }

-- After any history that starts at the empty database, every account's balance is, in the
-- arithmetic of `int64`, what the ledger credits it less what the ledger debits it; each user
-- stands under its own id, and the ledger names no one without an account.
pub AccountHistory-Books : {db : Database} → AccountHistory empty_database db → Books db
AccountHistory-Books here = empty_database-Books
AccountHistory-Books (next h s) = AccountStep-Books s (AccountHistory-Books h)
