-- ===== src/Accounting/Preserved.antt =====
-- internal/comrad/compute_accounting.go: every operation on users and ledger keeps the books.
use comrad.Prelude.{
  ◌≡◌, ◌≢◌, ap, eqb, subst, String, true, false, List, [], ◌∷◌, ◌++◌, some, ◌==◌, if◌then◌else◌,
  arith, eq_iff, All-append, Bool-cases, inl, inr,
}
use comrad.Prelude.Dict.{
  lookup, get_or, has_key, insert, lookup-insert, has_key-some, has_key_of_lookup,
}
use comrad.Types.{Time, User, ComputeLedgerEntry, ComputeReport, zero_node}
use comrad.Store.{Database}
use comrad.Accounting.{
  moved, apply_ledger_balance, append_ledger_entry, append_consumption_ledger,
  append_production_ledger, charge,
}
use comrad.Accounting.Books.{
  Books, Agrees, debits-append, credits-append, has_key-insert, All-has_key-insert,
}

-- The user whom an entry names: the entry settles its amount.
settle-Agrees :
    (k : String) (u : User) (es : List ComputeLedgerEntry) (e : ComputeLedgerEntry)
    → Agrees k u es
    → e.user_id ≡ k
    → Agrees k
        (record u { compute_balance = moved e.direction u.compute_balance e.amount })
        (es ++ e ∷ [])
unfolding moved
settle-Agrees k u es e a h =
    ground (arith, debits-append k es e, credits-append k es e, eq_iff e.user_id k)

-- Any other user: nothing moves.
other-Agrees :
    (k : String) (u : User) (es : List ComputeLedgerEntry) (e : ComputeLedgerEntry)
    → Agrees k u es
    → (e.user_id == k) ≡ false
    → Agrees k u (es ++ e ∷ [])
other-Agrees k u es e a h = ground (arith, debits-append k es e, credits-append k es e)

-- The database after an entry for a user who has an account.
apply_ledger_balance_known :
    (db : Database) (e : ComputeLedgerEntry) (u : User)
    → lookup e.user_id db.users ≡ some u
    → u.id ≡ e.user_id
    → e.user_id ≢ ""
    → apply_ledger_balance db e ≡ record db {
      users =
          insert e.user_id
            (record u { compute_balance = moved e.direction u.compute_balance e.amount })
            db.users;
    }
unfolding apply_ledger_balance get_or
apply_ledger_balance_known db e u h i n = ground (arith, eq_iff u.id "")

module _ (db : Database) (e : ComputeLedgerEntry) (u : User) (b : Books db) where
  settled : User
  settled = record u { compute_balance = moved e.direction u.compute_balance e.amount }

  settled_accounts :
      lookup e.user_id db.users ≡ some u
      → (k : String) (v : User) → lookup k (insert e.user_id settled db.users) ≡ some v
      → Agrees k v (db.compute_ledger ++ e ∷ [])
  unfolding settled
  settled_accounts h k v l = elim (Bool-cases (e.user_id == k)) [
    | inl same ↦
        let own : e.user_id ≡ k = (eq_iff e.user_id k).0 same in
        let found : settled ≡ v = ground (arith, lookup-insert e.user_id k settled db.users) in
        subst (λ w. Agrees k w (db.compute_ledger ++ e ∷ [])) found
          (settle-Agrees k u db.compute_ledger e (b.accounts k u (rw (← own) h)) own)
    | inr other ↦
        other-Agrees k v db.compute_ledger e
          (b.accounts k v (ground (arith, lookup-insert e.user_id k settled db.users))) other
  ]

  settled-Books :
      lookup e.user_id db.users ≡ some u
      → Books (record db {
        compute_ledger = db.compute_ledger ++ e ∷ [];
        users = insert e.user_id settled db.users;
      })
  settled-Books h = record {
    accounts = settled_accounts h;
    nameless =
        ground
          (arith, lookup-insert e.user_id "" settled db.users, eq_iff e.user_id "", b.nameless);
    known =
        All-append (λ x. has_key x.user_id (insert e.user_id settled db.users) ≡ true)
          db.compute_ledger (e ∷ [])
          (All-has_key-insert e.user_id settled db.users db.compute_ledger b.known)
          (
            has_key-insert e.user_id e.user_id settled db.users
                (has_key_of_lookup e.user_id db.users u h),
            tt,
          );
  }

-- The users after an entry for a user who has an account.
pub append_ledger_entry_known :
    (fresh : String) (clock : Time) (db : Database) (entry : ComputeLedgerEntry) (u : User)
    → Books db
    → lookup entry.user_id db.users ≡ some u
    → (append_ledger_entry fresh clock db entry).users
      ≡ insert entry.user_id
          (record u { compute_balance = moved entry.direction u.compute_balance entry.amount })
          db.users
unfolding append_ledger_entry
append_ledger_entry_known fresh clock db entry u b l =
    let e : ComputeLedgerEntry = record entry {
      id = if entry.id == "" then fresh else entry.id;
      created_at = if eqb entry.created_at 0 then clock else entry.created_at;
    } in
    let named : entry.user_id ≢ "" = λ q. cc (b.nameless, ap (λ k. lookup k db.users) q) in
    ap (λ (d : Database). d.users)
      (apply_ledger_balance_known (record db { compute_ledger = db.compute_ledger ++ e ∷ [] }) e u l
        (b.accounts entry.user_id u l).own_id named)

-- An entry for a user who has an account keeps the books.
pub append_ledger_entry-Books :
    (fresh : String) (clock : Time) (db : Database) (entry : ComputeLedgerEntry)
    → Books db
    → has_key entry.user_id db.users ≡ true
    → Books (append_ledger_entry fresh clock db entry)
unfolding append_ledger_entry settled
append_ledger_entry-Books fresh clock db entry b h =
    let (u, l) = has_key-some entry.user_id db.users h in
    let e : ComputeLedgerEntry = record entry {
      id = if entry.id == "" then fresh else entry.id;
      created_at = if eqb entry.created_at 0 then clock else entry.created_at;
    } in
    let named : entry.user_id ≢ "" = λ q. cc (b.nameless, ap (λ k. lookup k db.users) q) in
    rw
      (apply_ledger_balance_known (record db { compute_ledger = db.compute_ledger ++ e ∷ [] }) e u l
        (b.accounts entry.user_id u l).own_id named)
      (settled-Books db e u b l)

-- A change of nothing but other tables keeps the books.
pub Books-of_same :
    (db db' : Database)
    → db'.users ≡ db.users
    → db'.compute_ledger ≡ db.compute_ledger
    → Books db
    → Books db'
Books-of_same db db' u l b = record {
  accounts = λ k v h. rw l (b.accounts k v (rw u at h));
  nameless = rw u b.nameless;
  known = rw (u, l) b.known;
}

append_consumption_ledger-Books :
    (fresh : String) (clock : Time) (db : Database) (report : ComputeReport) (now : Time)
    → Books db
    → Books (append_consumption_ledger fresh clock db report now)
unfolding append_consumption_ledger
append_consumption_ledger-Books fresh clock db report now b =
    elim (Bool-cases (has_key report.user_id db.users)) [
      | inl h ↦ rw h (append_ledger_entry-Books fresh clock db _ b h)
      | inr h ↦ rw h b
    ]

append_production_ledger-Books :
    (fresh : String) (clock : Time) (db : Database) (report : ComputeReport) (now : Time)
    → Books db
    → Books (append_production_ledger fresh clock db report now)
unfolding append_production_ledger
append_production_ledger-Books fresh clock db report now b =
    elim (Bool-cases ((get_or zero_node report.node_id db.nodes).owner_user_id == "")) [
      | inl unowned ↦ rw unowned b
      | inr owned ↦
          elim (Bool-cases
            (has_key (get_or zero_node report.node_id db.nodes).owner_user_id db.users)) [
              | inl h ↦ rw (owned, h) (append_ledger_entry-Books fresh clock db _ b h)
              | inr h ↦ rw (owned, h) b
            ]
    ]

pub charge-Books :
    (f g : String) (clock : Time) (db : Database) (report : ComputeReport) (now : Time)
    → Books db
    → Books (charge f g clock db report now)
unfolding charge
charge-Books f g clock db report now b = ground (
  arith,
  append_production_ledger-Books g clock (append_consumption_ledger f clock db report now) report
      now (append_consumption_ledger-Books f clock db report now b),
)

-- A user entered under its id, with an account that agrees, keeps the books.
pub insert-Books :
    (db : Database) (k : String) (u : User)
    → Books db
    → k ≢ ""
    → Agrees k u db.compute_ledger
    → Books (record db { users = insert k u db.users })
insert-Books db k u b n a = record {
  accounts = λ j v l. elim (Bool-cases (k == j)) [
    | inl same ↦
        let found : u ≡ v = ground (arith, lookup-insert k j u db.users) in
        subst (λ w. Agrees j w db.compute_ledger) found
          (subst (λ i. Agrees i u db.compute_ledger) ((eq_iff k j).0 same) a)
    | inr other ↦ b.accounts j v (ground (arith, lookup-insert k j u db.users))
  ];
  nameless = ground (arith, lookup-insert k "" u db.users, eq_iff k "", b.nameless);
  known = All-has_key-insert k u db.users db.compute_ledger b.known;
}
