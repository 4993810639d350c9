-- ===== src/Prelude/Distinct.antt =====
-- Maps whose keys are distinct, as Go's are.
use mathlib.Core.List.{[], ◌∷◌}
use mathlib.Core.Option.{Option, none, some}
use mathlib.Core.Path.{◌≡◌, refl, subst}
use mathlib.Core.Logic.{inl, inr}
use mathlib.Core.Bool.{Bool, false}
use native.Mathlib.Omega.{arith}
use Prim.Native.String.{String}
use text.Mathlib.Text.{◌==◌}
use text.Mathlib.TextEquality.{eq_iff}
use text.Mathlib.TextPositions.{eq_refl}
use comrad.Prelude.Tests.{if◌then◌else◌, Bool-cases}
use comrad.Prelude.Lists.{All}
use comrad.Prelude.Dict.{
  Dict, lookup, insert, has_key, lookup-insert, delete_where, lookup_of_not_has_key,
}

module _ {ℓ} {V : Type ℓ} where
  abbrev pub Distinct : Dict V → Type 0
  Distinct [] = Unit
  Distinct ((k, v) ∷ m) = (has_key k m ≡ false) × Distinct m

  has_key-insert :
      (put k : String) (v : V) (m : Dict V)
      → (put == k) ≡ false
      → has_key k m ≡ false
      → has_key k (insert put v m) ≡ false
  unfolding has_key
  has_key-insert put k v m other absent = ground (arith, lookup-insert put k v m)

  pub Distinct-insert : (k : String) (v : V) (m : Dict V) → Distinct m → Distinct (insert k v m)
  unfolding insert has_key lookup
  Distinct-insert k v [] d = (refl, tt)
  Distinct-insert k v ((j, w) ∷ m) d = elim (Bool-cases (j == k)) [
    | inl e ↦
        let same : j ≡ k = ground (arith, e, eq_iff j k) in
        rw e (subst (λ i. has_key i m ≡ false) same d.0, d.1)
    | inr e ↦
        let other : (k == j) ≡ false = ground (arith, e, eq_iff k j, eq_iff j k) in
        rw e (has_key-insert k j v m other d.0, Distinct-insert k v m d.1)
  ]

  -- What holds of each key's value holds of each entry.
  pub All-entries {κ} :
      (P : String → V → Type κ) (m : Dict V)
      → Distinct m
      → ((k : String) (v : V) → lookup k m ≡ some v → P k v)
      → All (λ (e : String × V). P e.0 e.1) m
  unfolding lookup has_key
  All-entries P [] d h = tt
  All-entries P ((j, w) ∷ m) d h =
      let own : lookup j ((j, w) ∷ m) ≡ some w = rw (eq_refl j) refl in
      (h j w own, All-entries P m d.1 (λ k v e. h k v (later k v e)))
    where
      later : (k : String) (v : V) → lookup k m ≡ some v → lookup k ((j, w) ∷ m) ≡ some v
      later k v e = elim (Bool-cases (j == k)) [
        | inl same ↦
            let here : lookup j m ≡ some v =
              subst (λ i. lookup i m ≡ some v) (ground (arith, same, eq_iff j k)) e in
            absurd (ground (arith, here, d.0))
        | inr other ↦ rw other e
      ]

  -- The value, unless it passes the test.
  abbrev pub unless : (V → Bool) → Option V → Option V
  unless p none = none
  unless p (some v) = if p v then none else some v

  pub has_key-delete_where :
      (p : V → Bool) (k : String) (m : Dict V)
      → has_key k m ≡ false
      → has_key k (delete_where p m) ≡ false
  unfolding has_key lookup delete_where
  has_key-delete_where p k [] h = refl
  has_key-delete_where p k ((j, w) ∷ m) h = ground (arith, has_key-delete_where p k m)

  pub Distinct-delete_where : (p : V → Bool) (m : Dict V) → Distinct m → Distinct (delete_where p m)
  unfolding delete_where
  Distinct-delete_where p [] d = tt
  Distinct-delete_where p ((j, w) ∷ m) d = elim (Bool-cases (p w)) [
    | inl e ↦ rw e (Distinct-delete_where p m d.1)
    | inr e ↦ rw e (has_key-delete_where p j m d.0, Distinct-delete_where p m d.1)
  ]

  pub lookup-delete_where :
      (p : V → Bool) (k : String) (m : Dict V)
      → Distinct m
      → lookup k (delete_where p m) ≡ unless p (lookup k m)
  unfolding lookup delete_where has_key
  lookup-delete_where p k [] d = refl
  lookup-delete_where p k ((j, w) ∷ m) d = elim (Bool-cases (j == k)) [
    | inl e ↦
        let absent : lookup k m ≡ none =
          lookup_of_not_has_key k m
            (subst (λ i. has_key i m ≡ false) (ground (arith, e, eq_iff j k)) d.0) in
        let later = lookup-delete_where p k m d.1 in ground (arith, e, absent, later)
    | inr e ↦ ground (arith, e, lookup-delete_where p k m d.1)
  ]
