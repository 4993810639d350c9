-- ===== src/Catalog/Removal.antt =====
-- internal/comrad/manager_profile_delete.go: what deleting a profile leaves.
use comrad.Prelude.{
  Option, some, false, suc, length, length-append, ◌&&◌, [], ◌∷◌, ◌≡◌, ◌↔◌, refl, String, true, not,
  ◌&&◌, none, arith, ◌==◌, if◌then◌else◌, Bool-cases, inl, inr,
}
use comrad.Prelude.Dict.{lookup, has_key, lookup-delete}
use comrad.Prelude.Distinct.{Distinct, unless, lookup-delete_where}
use comrad.Types.{Time, PlacementPolicy, PlacementAssignment}
use comrad.Store.{Database}
use comrad.Catalog.{delete_profile, profile_removed, profile_has_live_work, unless_error}

unless_never {ℓ} : {V : Type ℓ} (o : Option V) → o ≡ unless (λ v. false) o
unless_never none = refl
unless_never (some v) = refl

-- A profile is deleted exactly if it is there and no task of it is queued or running and no attempt
-- of it running. Then of the profiles just it is gone, and of the policies and the assignments, under
-- whichever key, just those of the profile; one audit event is added, and the rest of the database
-- stays. Otherwise nothing changes at all. The policies and the assignments have distinct keys.
pub delete_profile-cascade :
    (id : String) (now : Time) (db : Database)
    → Distinct db.policies
    → Distinct db.assignments
    → (key : String)
    → let deletable = has_key id db.profiles && not (profile_has_live_work db id) in
      let (after, err) = delete_profile id now db in
      ((err ≡ none) ↔ (deletable ≡ true))
      × (lookup key after.profiles
          ≡ (if deletable && id == key then none else lookup key db.profiles))
      × (lookup key after.policies
          ≡ unless
              (λ (p : PlacementPolicy). deletable && p.profile_id == id)
              (lookup key db.policies))
      × (lookup key after.assignments
          ≡ unless
              (λ (a : PlacementAssignment). deletable && a.profile_id == id)
              (lookup key db.assignments))
      × (length after.audit ≡ (if deletable then suc (length db.audit) else length db.audit))
      × (after ≡ record db {
        profiles = after.profiles;
        policies = after.policies;
        assignments = after.assignments;
        audit = after.audit;
      })
      × (after ≡ (if deletable then after else db))
unfolding delete_profile profile_removed unless_error
delete_profile-cascade id now db dp da key = elim (Bool-cases (has_key id db.profiles)) [
  | inr missing ↦ rw missing (ground arith, refl, unless_never _, unless_never _, refl, refl, refl)
  | inl there ↦ elim (Bool-cases (profile_has_live_work db id)) [
    | inl live ↦
        rw (there, live) (ground arith, refl, unless_never _, unless_never _, refl, refl, refl)
    | inr idle ↦
        rw (there, idle)
          (
            ground arith,
            lookup-delete id key db.profiles,
            lookup-delete_where (λ (p : PlacementPolicy). p.profile_id == id) key db.policies dp,
            lookup-delete_where (λ (a : PlacementAssignment). a.profile_id == id) key db.assignments
                da,
            omega (arith, length-append db.audit (_ ∷ [])),
            refl,
            refl,
          )
  ]
]
