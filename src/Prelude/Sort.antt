-- ===== src/Prelude/Sort.antt =====
-- `sort.SliceStable` as an insertion sort: each item goes before the first one that is not to
-- stand before it. `sort.Slice` agrees with it where no two items tie.
use mathlib.Core.List.{List, [], ◌∷◌, Perm}
use mathlib.Core.List.Perm
use mathlib.Core.Bool.{Bool, true, false}
use comrad.Prelude.Tests.{if◌then◌else◌, Bool-cases}
use mathlib.Core.Logic.{inl, inr, ◌≢◌}
use mathlib.Core.Path.{◌≡◌, refl}
use native.Mathlib.Omega.{arith}
use comrad.Prelude.Lists.{All}

module _ {ℓ} {A : Type ℓ} (less : A → A → Bool) where
  unfoldable pub sort_insert : A → List A → List A
  sort_insert x [] = x ∷ []
  sort_insert x (y ∷ ys) = let rest = sort_insert x ys in if less y x then y ∷ rest else x ∷ y ∷ ys

  unfoldable pub sort_stable : List A → List A
  sort_stable [] = []
  sort_stable (x ∷ xs) = sort_insert x (sort_stable xs)

  sort_insert-perm : (x : A) (ys : List A) → Perm (x ∷ ys) (sort_insert x ys)
  unfolding sort_insert
  sort_insert-perm x [] = Perm.refl _
  sort_insert-perm x (y ∷ ys) = elim (Bool-cases (less y x)) [
    | inl e ↦ rw e (Perm.trans (Perm.swap y x ys) (Perm.cons y (sort_insert-perm x ys)))
    | inr e ↦ rw e (Perm.refl _)
  ]

  pub sort_stable-perm : (xs : List A) → Perm xs (sort_stable xs)
  unfolding sort_stable
  sort_stable-perm [] = Perm.refl _
  sort_stable-perm (x ∷ xs) =
      Perm.trans (Perm.cons x (sort_stable-perm xs)) (sort_insert-perm x (sort_stable xs))

-- No item is to stand before an earlier one.
module _ {ℓ} {A : Type ℓ} (less : A → A → Bool) where
  abbrev pub IsSorted : List A → Type 0
  IsSorted [] = Unit
  IsSorted (x ∷ xs) = All (λ y. less y x ≡ false) xs × IsSorted xs

  -- What `less` must satisfy, as Go's `sort` asks: a strict weak order.
  pub record IsOrder : Type ℓ where
    pub asym : (a b : A) → less a b ≡ true → less b a ≡ false
    pub up : (a b c : A) → less b a ≡ false → less c b ≡ false → less c a ≡ false

module _ {ℓ} {A : Type ℓ} (less : A → A → Bool) where
  pub All-sort_insert {κ} :
      (P : A → Type κ) (x : A) (ys : List A) → P x → All P ys → All P (sort_insert less x ys)
  unfolding sort_insert
  All-sort_insert P x [] p a = (p, tt)
  All-sort_insert P x (y ∷ ys) p a = elim (Bool-cases (less y x)) [
    | inl e ↦ rw e (a.0, All-sort_insert P x ys p a.1)
    | inr e ↦ rw e (p, a)
  ]

  pub All-sort_stable {κ} : (P : A → Type κ) (xs : List A) → All P xs → All P (sort_stable less xs)
  unfolding sort_stable
  All-sort_stable P [] a = tt
  All-sort_stable P (x ∷ xs) a =
      All-sort_insert P x (sort_stable less xs) a.0 (All-sort_stable P xs a.1)

  All-up :
      IsOrder less
      → (x y : A) (ys : List A) → less y x ≡ false
      → All (λ z. less z y ≡ false) ys
      → All (λ z. less z x ≡ false) ys
  All-up o x y [] h a = tt
  All-up o x y (z ∷ ys) h a = (o.up x y z h a.0, All-up o x y ys h a.1)

  sort_insert-IsSorted :
      IsOrder less
      → (x : A) (ys : List A) → IsSorted less ys
      → IsSorted less (sort_insert less x ys)
  unfolding sort_insert
  sort_insert-IsSorted o x [] s = (tt, tt)
  sort_insert-IsSorted o x (y ∷ ys) s = elim (Bool-cases (less y x)) [
    | inl e ↦ rw e (
      All-sort_insert (λ z. less z y ≡ false) x ys (o.asym y x e) s.0,
      sort_insert-IsSorted o x ys s.1,
    )
    | inr e ↦ rw e ((e, All-up o x y ys e s.0), s)
  ]

  pub sort_stable-IsSorted : IsOrder less → (xs : List A) → IsSorted less (sort_stable less xs)
  unfolding sort_stable
  sort_stable-IsSorted o [] = tt
  sort_stable-IsSorted o (x ∷ xs) =
      sort_insert-IsSorted o x (sort_stable less xs) (sort_stable-IsSorted o xs)

  All-of_sort_insert {κ} :
      (P : A → Type κ) (x : A) (ys : List A) → All P (sort_insert less x ys) → P x × All P ys
  unfolding sort_insert
  All-of_sort_insert P x [] a = a
  All-of_sort_insert P x (y ∷ ys) a = elim (Bool-cases (less y x)) [
    | inl e ↦
        let b : P y × All P (sort_insert less x ys) = rw e at a in
        let (p, rest) = All-of_sort_insert P x ys b.1 in (p, (b.0, rest))
    | inr e ↦ rw e at a
  ]

  pub All-of_sort_stable {κ} :
      (P : A → Type κ) (xs : List A) → All P (sort_stable less xs) → All P xs
  unfolding sort_stable
  All-of_sort_stable P [] a = tt
  All-of_sort_stable P (x ∷ xs) a =
      let (p, rest) = All-of_sort_insert P x (sort_stable less xs) a in
      (p, All-of_sort_stable P xs rest)

  sort_insert-ne_nil : (x : A) (ys : List A) → sort_insert less x ys ≢ []
  unfolding sort_insert
  sort_insert-ne_nil x [] = λ e. cc
  sort_insert-ne_nil x (y ∷ ys) = ground arith

  pub sort_stable-ne_nil : (x : A) (xs : List A) → sort_stable less (x ∷ xs) ≢ []
  unfolding sort_stable
  sort_stable-ne_nil x xs = sort_insert-ne_nil x (sort_stable less xs)

  pub sort_stable_nil : (xs : List A) → sort_stable less xs ≡ [] → xs ≡ []
  sort_stable_nil [] h = refl
  sort_stable_nil (x ∷ xs) h = absurd (sort_stable-ne_nil x xs h)
