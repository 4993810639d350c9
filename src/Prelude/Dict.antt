-- ===== src/Prelude/Dict.antt =====
-- Go's `map[string]V`: an association list in the order of a `range` over the map, which Go leaves
-- open. A statement about every list holds in every order.
use mathlib.Core.List.{List, [], ◌∷◌}
use mathlib.Core.Option.{Option, none, some}
use mathlib.Core.Path.{◌≡◌, refl, subst}
use mathlib.Core.Bool.{Bool, true, false}
use native.Mathlib.Omega.{arith}
use Prim.Native.String.{String}
use text.Mathlib.Text.{◌==◌}
use text.Mathlib.TextEquality.{eq_iff}
use mathlib.Core.Logic.{inl, inr}
use text.Mathlib.TextPositions.{eq_refl}
use comrad.Prelude.Tests.{if◌then◌else◌, Bool-cases}
use comrad.Prelude.Lists.{All}

abbrev pub Dict {ℓ} : Type ℓ → Type ℓ
Dict V = List (String × V)

module _ {ℓ} {V : Type ℓ} where
  unfoldable pub lookup : String → Dict V → Option V
  lookup k [] = none
  lookup k ((j, v) ∷ m) = let rest = lookup k m in if j == k then some v else rest

  abbrev pub or_zero : V → Option V → V
  or_zero z none = z
  or_zero z (some v) = v

  -- `m[k]`, with the zero value of a missing key.
  unfoldable pub get_or : V → String → Dict V → V
  get_or z k m = or_zero z (lookup k m)

  unfoldable pub insert : String → V → Dict V → Dict V
  insert k v [] = (k, v) ∷ []
  insert k v ((j, w) ∷ m) = let rest = insert k v m in if j == k then (k, v) ∷ m else (j, w) ∷ rest

  unfoldable pub delete : String → Dict V → Dict V
  delete k [] = []
  delete k ((j, w) ∷ m) = let rest = delete k m in if j == k then rest else (j, w) ∷ rest

  unfoldable pub values : Dict V → List V
  values [] = []
  values ((k, v) ∷ m) = v ∷ values m

  -- `for k, v := range m { m[k] = f(v) }`.
  unfoldable pub map_values : (V → V) → Dict V → Dict V
  map_values f [] = []
  map_values f ((k, v) ∷ m) = (k, f v) ∷ map_values f m

  unfoldable pub has_key : String → Dict V → Bool
  has_key k m = elim (lookup k m) [ none ↦ false | some v ↦ true ]

  -- `for k, v := range m { if p(v) { delete(m, k) } }`.
  unfoldable pub delete_where : (V → Bool) → Dict V → Dict V
  delete_where p [] = []
  delete_where p ((k, v) ∷ m) = let rest = delete_where p m in if p v then rest else (k, v) ∷ rest

  pub lookup-insert :
      (put get : String) (x : V) (d : Dict V)
      → lookup get (insert put x d) ≡ (if put == get then some x else lookup get d)
  unfolding lookup insert
  lookup-insert put get x [] = refl
  lookup-insert put get x ((own, old) ∷ rest) =
      let later = lookup-insert put get x rest in
      ground (arith, later, eq_iff own get, eq_iff own put, eq_iff put get)

  pub lookup-delete :
      (k j : String) (m : Dict V) → lookup j (delete k m) ≡ (if k == j then none else lookup j m)
  unfolding lookup delete
  lookup-delete k j [] = ground arith
  lookup-delete k j ((i, w) ∷ m) =
      ground (arith, eq_iff k j, eq_iff i k, eq_iff i j, lookup-delete k j m)

  pub lookup-map_values :
      (f : V → V) (k : String) (m : Dict V)
      → lookup k (map_values f m) ≡ elim (lookup k m) [ none ↦ none | some v ↦ some (f v) ]
  unfolding lookup map_values
  lookup-map_values f k [] = refl
  lookup-map_values f k ((i, w) ∷ m) = ground (arith, lookup-map_values f k m)

  pub get_or-insert :
      (z : V) (k j : String) (v : V) (m : Dict V)
      → get_or z j (insert k v m) ≡ (if k == j then v else get_or z j m)
  unfolding get_or
  get_or-insert z k j v m = ground (arith, lookup-insert k j v m)

  pub has_key-some :
      (k : String) (m : Dict V) → has_key k m ≡ true → (v : V) × (lookup k m ≡ some v)
  unfolding has_key
  has_key-some k m h = ground arith

  pub has_key_of_lookup :
      (k : String) (m : Dict V) (v : V) → lookup k m ≡ some v → has_key k m ≡ true
  unfolding has_key
  has_key_of_lookup k m v h = ground arith

  pub lookup_of_not_has_key : (k : String) (m : Dict V) → has_key k m ≡ false → lookup k m ≡ none
  unfolding has_key
  lookup_of_not_has_key k m h = ground arith

  pub has_key-insert :
      (put k : String) (v : V) (m : Dict V) → has_key k m ≡ true → has_key k (insert put v m) ≡ true
  unfolding has_key
  has_key-insert put k v m h = ground (arith, lookup-insert put k v m)

  pub has_key_of_insert : (k : String) (v : V) (m : Dict V) → has_key k (insert k v m) ≡ true
  unfolding has_key
  has_key_of_insert k v m = ground (arith, lookup-insert k k v m, eq_refl k)

  pub has_key-delete :
      (gone k : String) (m : Dict V)
      → (gone == k) ≡ false
      → has_key k m ≡ true
      → has_key k (delete gone m) ≡ true
  unfolding has_key
  has_key-delete gone k m other h = ground (arith, lookup-delete gone k m)

  pub All-insert {κ} :
      (P : V → Type κ) (k : String) (v : V) (m : Dict V)
      → P v
      → All P (values m)
      → All P (values (insert k v m))
  unfolding values insert
  All-insert P k v [] p a = (p, tt)
  All-insert P k v ((j, w) ∷ m) p a = elim (Bool-cases (j == k)) [
    | inl e ↦ rw e (p, a.1)
    | inr e ↦ rw e (a.0, All-insert P k v m p a.1)
  ]

  pub All-delete {κ} :
      (P : V → Type κ) (k : String) (m : Dict V) → All P (values m) → All P (values (delete k m))
  unfolding values delete
  All-delete P k [] a = tt
  All-delete P k ((j, w) ∷ m) a = elim (Bool-cases (j == k)) [
    | inl e ↦ rw e (All-delete P k m a.1)
    | inr e ↦ rw e (a.0, All-delete P k m a.1)
  ]

  -- What is left passes what the deleted ones fail.
  pub All-delete_where {κ} :
      (P : V → Type κ) (p : V → Bool) (m : Dict V)
      → All P (values m)
      → All (λ v. P v × (p v ≡ false)) (values (delete_where p m))
  unfolding values delete_where
  All-delete_where P p [] a = tt
  All-delete_where P p ((j, w) ∷ m) a = elim (Bool-cases (p w)) [
    | inl e ↦ rw e (All-delete_where P p m a.1)
    | inr e ↦ rw e ((a.0, e), All-delete_where P p m a.1)
  ]

  pub lookup-All {κ} :
      (P : V → Type κ) (k : String) (v : V) (m : Dict V)
      → All P (values m)
      → lookup k m ≡ some v
      → P v
  unfolding values lookup
  lookup-All P k v [] a e = absurd (ground (arith, e))
  lookup-All P k v ((j, w) ∷ m) a e = elim (Bool-cases (j == k)) [
    | inl same ↦
        let here : some w ≡ some v = rw same at e in let own : w ≡ v = cc in subst P own a.0
    | inr other ↦ lookup-All P k v m a.1 (rw other at e)
  ]

  pub insert_twice : (k : String) (v w : V) (m : Dict V) → insert k v (insert k w m) ≡ insert k v m
  unfolding insert
  insert_twice k v w [] = rw (eq_refl k) refl
  insert_twice k v w ((j, u) ∷ m) = elim (Bool-cases (j == k)) [
    | inl e ↦ rw e (rw (eq_refl k) refl)
    | inr e ↦ rw e (rw (e, insert_twice k v w m) refl)
  ]
