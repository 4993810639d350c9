-- ===== src/Accounting/Reports.antt =====
-- internal/comrad/compute_accounting.go: a report is charged once.
use comrad.Prelude.{
  ◌≡◌, String, true, not, ◌&&◌, List, [], ◌∷◌, ◌++◌, ◌==◌, ◌⊎◌, arith, eq_refl, Bool-cases, inl,
  inr, lt64,
}
use comrad.Prelude.Dict.{get_or, has_key}
use comrad.Types.{Time, ComputeLedgerEntry, ComputeReport, is_completed, zero_node}
use comrad.Store.{Database}
use comrad.Accounting.{
  apply_ledger_balance, append_ledger_entry, ledger_exists_for_report, append_consumption_ledger,
  append_production_ledger, charge,
}

ledger_exists_for_report-append :
    (es : List ComputeLedgerEntry) (e : ComputeLedgerEntry) (r : String)
    → ledger_exists_for_report es r ≡ true
    → ledger_exists_for_report (es ++ e ∷ []) r ≡ true
unfolding ledger_exists_for_report
ledger_exists_for_report-append [] e r h = cc
ledger_exists_for_report-append (x ∷ es) e r h =
    ground (arith, ledger_exists_for_report-append es e r)

ledger_exists_for_report-append_self :
    (es : List ComputeLedgerEntry) (e : ComputeLedgerEntry)
    → ledger_exists_for_report (es ++ e ∷ []) e.report_id ≡ true
unfolding ledger_exists_for_report
ledger_exists_for_report-append_self [] e = rw (eq_refl e.report_id)
ledger_exists_for_report-append_self (x ∷ es) e =
    ground (arith, ledger_exists_for_report-append_self es e)

-- What an entry leaves of the tables that a charge reads.
apply_ledger_balance-ledger :
    (db : Database) (e : ComputeLedgerEntry)
    → (apply_ledger_balance db e).compute_ledger ≡ db.compute_ledger
unfolding apply_ledger_balance
apply_ledger_balance-ledger db e = ground arith

append_ledger_entry-charged :
    (fresh : String) (clock : Time) (db : Database) (e : ComputeLedgerEntry)
    → ledger_exists_for_report (append_ledger_entry fresh clock db e).compute_ledger e.report_id
      ≡ true
unfolding append_ledger_entry
append_ledger_entry-charged fresh clock db e =
    rw (apply_ledger_balance-ledger _ _) (ledger_exists_for_report-append_self db.compute_ledger _)

append_ledger_entry-keeps_charged :
    (fresh : String) (clock : Time) (db : Database) (e : ComputeLedgerEntry) (r : String)
    → ledger_exists_for_report db.compute_ledger r ≡ true
    → ledger_exists_for_report (append_ledger_entry fresh clock db e).compute_ledger r ≡ true
unfolding append_ledger_entry
append_ledger_entry-keeps_charged fresh clock db e r h =
    rw (apply_ledger_balance-ledger _ _) (ledger_exists_for_report-append db.compute_ledger _ r h)

append_production_ledger-keeps_charged :
    (g : String) (clock : Time) (db : Database) (r : ComputeReport) (now : Time)
    → ledger_exists_for_report db.compute_ledger r.id ≡ true
    → ledger_exists_for_report (append_production_ledger g clock db r now).compute_ledger r.id
      ≡ true
unfolding append_production_ledger
append_production_ledger-keeps_charged g clock db r now h =
    elim (Bool-cases ((get_or zero_node r.node_id db.nodes).owner_user_id == "")) [
      | inl unowned ↦ rw unowned h
      | inr owned ↦
          elim (Bool-cases (has_key (get_or zero_node r.node_id db.nodes).owner_user_id db.users)) [
            | inl k ↦ rw (owned, k) (append_ledger_entry-keeps_charged g clock db _ r.id h)
            | inr k ↦ rw (owned, k) h
          ]
    ]

-- A production entry is either made or not, whatever the ids and times.
abbrev Settled : ComputeReport → Database → (String → Time → Time → Database) → Type 0
Settled r db f =
    ((g : String) (clock now : Time) → f g clock now ≡ db)
    ⊎ ((g : String) (clock now : Time)
        → ledger_exists_for_report (f g clock now).compute_ledger r.id ≡ true)

append_production_ledger-Settled :
    (db : Database) (r : ComputeReport)
    → Settled r db (λ g clock now. append_production_ledger g clock db r now)
unfolding append_production_ledger
append_production_ledger-Settled db r =
    elim (Bool-cases ((get_or zero_node r.node_id db.nodes).owner_user_id == "")) [
      | inl unowned ↦ inl (λ g clock now. rw unowned)
      | inr owned ↦
          elim (Bool-cases (has_key (get_or zero_node r.node_id db.nodes).owner_user_id db.users)) [
            | inl k ↦ inr (λ g clock now. rw (owned, k) (append_ledger_entry-charged g clock db _))
            | inr k ↦ inl (λ g clock now. rw (owned, k))
          ]
    ]

-- A charge is either never made, or leaves an entry for the report.
charge-Settled :
    (db : Database) (r : ComputeReport)
    → ((f g : String) (clock now : Time) → charge f g clock db r now ≡ db)
      ⊎ ((f g : String) (clock now : Time)
          → ledger_exists_for_report (charge f g clock db r now).compute_ledger r.id ≡ true)
unfolding charge append_consumption_ledger
charge-Settled db r =
    elim (Bool-cases (
      is_completed r.status
      && lt64 0 r.compute_cost
      && not (ledger_exists_for_report db.compute_ledger r.id))) [
        | inr idle ↦ inl (λ f g clock now. rw idle)
        | inl due ↦ elim (Bool-cases (has_key r.user_id db.users)) [
          | inl k ↦ inr (λ f g clock now.
              rw (due, k)
                (append_production_ledger-keeps_charged g clock _ r now
                  (append_ledger_entry-charged f clock db _)))
          | inr k ↦ elim (append_production_ledger-Settled db r) [
            | inl same ↦ inl (λ f g clock now. rw (due, k) (same g clock now))
            | inr made ↦ inr (λ f g clock now. rw (due, k) (made g clock now))
          ]
        ]
      ]

charge_charged :
    (f g : String) (clock now : Time) (db : Database) (r : ComputeReport)
    → ledger_exists_for_report db.compute_ledger r.id ≡ true
    → charge f g clock db r now ≡ db
unfolding charge
charge_charged f g clock now db r h = ground arith

-- To charge a report again, under whatever fresh ids and times, changes nothing in the database.
pub charge_twice :
    (f g f' g' : String) (clock now clock' now' : Time) (db : Database) (r : ComputeReport)
    → charge f' g' clock' (charge f g clock db r now) r now' ≡ charge f g clock db r now
charge_twice f g f' g' clock now clock' now' db r = elim (charge-Settled db r) [
  | inl same ↦ rw (same f g clock now) (same f' g' clock' now')
  | inr made ↦ charge_charged f' g' clock' now' (charge f g clock db r now) r (made f g clock now)
]
