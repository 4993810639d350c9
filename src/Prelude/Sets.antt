-- ===== src/Prelude/Sets.antt =====
-- Lists of texts as sets: internal/comrad/util.go and the helpers of internal/comrad/profile_fit.go.
use Prim.Native.String.{String}
use mathlib.Core.Bool.{Bool, true, false, ◌||◌}
use mathlib.Core.List.{List, [], ◌∷◌, ◌++◌}
use mathlib.Core.Path.{◌≡◌, refl}
use native.Mathlib.Omega.{arith}
use text.Mathlib.Text.{◌==◌}
use text.Mathlib.TextPositions.{eq_refl}
use comrad.Prelude.Tests.{text_ltb, if◌then◌else◌, Bool-cases}
use mathlib.Core.Logic.{inl, inr}
use comrad.Prelude.Lists.{All}
use comrad.Prelude.Sort.{sort_stable, All-of_sort_stable}

unfoldable pub contains : List String → String → Bool
contains [] v = false
contains (item ∷ list) v = let rest = contains list v in if item == v then true else rest

unfoldable pub has_all : List String → List String → Bool
has_all list [] = true
has_all list (req ∷ required) =
    let rest = has_all list required in if contains list req then rest else false

unfoldable pub append_unique : List String → String → List String
append_unique items item = if item == "" || contains items item then items else items ++ item ∷ []

-- The loop of `uniqueSorted`: the first copy of each text that is not empty.
unique : List String → List String → List String
unique seen [] = []
unique seen (item ∷ items) =
    let skip = unique seen items in
    let take = item ∷ unique (item ∷ seen) items in
    if item == "" || contains seen item then skip else take

unfoldable pub unique_sorted : List String → List String
unfolding unique
unique_sorted items = sort_stable text_ltb (unique [] items)

-- The tags that `HasAll` accepts are those that the list contains, each of them.
pub has_all_sound :
    (list required : List String)
    → has_all list required ≡ true
    → All (λ r. contains list r ≡ true) required
unfolding has_all
has_all_sound list [] h = tt
has_all_sound list (r ∷ required) h = ground (arith, has_all_sound list required)

pub has_all_complete :
    (list required : List String)
    → All (λ r. contains list r ≡ true) required
    → has_all list required ≡ true
unfolding has_all
has_all_complete list [] h = refl
has_all_complete list (r ∷ required) h = ground (arith, has_all_complete list required h.1)

pub contains-append :
    (xs ys : List String) (v : String) → contains (xs ++ ys) v ≡ (contains xs v || contains ys v)
unfolding contains
contains-append [] ys v = refl
contains-append (x ∷ xs) ys v = ground (arith, contains-append xs ys v)

-- After `appendUnique` the list contains the item, unless the item is empty.
pub contains-append_unique :
    (items : List String) (item : String)
    → (item == "") ≡ false
    → contains (append_unique items item) item ≡ true
unfolding append_unique contains
contains-append_unique items item h =
    ground (arith, contains-append items (item ∷ []) item, eq_refl item)

-- The texts are all empty.
abbrev pub Blank : List String → Type 0
Blank = All (λ s. s == "" ≡ true)

unique-Blank : (items : List String) → Blank (unique [] items) → Blank items
unfolding unique contains
unique-Blank [] h = tt
unique-Blank (item ∷ items) h = elim (Bool-cases (item == "")) [
  | inl e ↦ (e, unique-Blank items (rw e at h))
  | inr e ↦ absurd (ground arith)
]

-- Only empty texts give a set without a text that is not empty.
pub unique_sorted-Blank : (items : List String) → Blank (unique_sorted items) → Blank items
unfolding unique_sorted
unique_sorted-Blank items h =
    unique-Blank items (All-of_sort_stable text_ltb (λ s. s == "" ≡ true) (unique [] items) h)

pub Blank-of_append : (xs ys : List String) → Blank (xs ++ ys) → Blank xs × Blank ys
Blank-of_append [] ys h = (tt, h)
Blank-of_append (x ∷ xs) ys h = let (l, r) = Blank-of_append xs ys h.1 in ((h.0, l), r)
