-- ===== src/Profile/Resolve/Best.antt =====
-- internal/comrad/profile_fit.go: the context that the resolver chooses is enough, and the least
-- that is.
use comrad.Prelude.{
  ◌≡◌, ◌≢◌, ◌⊎◌, refl, inl, inr, String, true, false, ◌&&◌, not, List, [], ◌∷◌, Option, none, some,
  Int64, lt64, le64, ◌==◌, All, All-append, All-map, arith, Bool-cases,
}
use mathlib.Core.List.{Mem, mem-cons_self, mem-cons_of_mem}
use comrad.Prelude.Sort.{
  sort_stable, IsOrder, IsSorted, sort_stable-IsSorted, All-sort_stable, All-of_sort_stable,
  sort_stable-ne_nil,
}
use comrad.Prelude.Dict.{values}
use comrad.Types.{WorkloadProfile, RuntimeModelVariant, Error, model_not_found}
use comrad.Store.{Database}
use comrad.Profile.{profile_runtime_variants}
use comrad.Profile.Resolve.{
  Candidate, best_context, better_context, offered_context, minimum_sufficient_context,
  candidate_of, variant_candidates, matches_model, profile_candidates, all_candidates, by_context,
  first_sufficient, choose, resolve_llm_profile,
}

-- A context that was found suffices.
abbrev Suffices : Int64 → Int64 → Type 0
Suffices min_context ctx = (ctx ≡ 0) ⊎ (lt64 ctx min_context ≡ false)

best_context-Suffices :
    (m best : Int64) (vs : List RuntimeModelVariant)
    → Suffices m best
    → Suffices m (best_context m best vs)
unfolding best_context
best_context-Suffices m best [] h = h
best_context-Suffices m best (v ∷ vs) h =
    best_context-Suffices m (better_context m best (offered_context v)) vs
      (step (offered_context v))
  where
    step : (o : Option Int64) → Suffices m (better_context m best o)
    step none = h
    step (some ctx) = ground arith

abbrev IsEnough : Int64 → Candidate → Type 0
IsEnough m c = lt64 c.context m ≡ false

candidate_of-IsEnough :
    (m : Int64) (p q : WorkloadProfile)
    → All (IsEnough m) (candidate_of p (minimum_sufficient_context q m))
unfolding minimum_sufficient_context
candidate_of-IsEnough m p q =
    ground (arith, best_context-Suffices m 0 (profile_runtime_variants q) (inl refl))

variant_candidates-IsEnough :
    (model : String) (m : Int64) (p : WorkloadProfile) (vs : List RuntimeModelVariant)
    → All (IsEnough m) (variant_candidates model m p vs)
unfolding variant_candidates
variant_candidates-IsEnough model m p [] = tt
variant_candidates-IsEnough model m p (v ∷ vs) =
    elim (Bool-cases (not (v.id == model) && not (v.name == model))) [
      | inl skip ↦ rw skip (variant_candidates-IsEnough model m p vs)
      | inr found ↦
          let q : WorkloadProfile = record p { runtime_variants = v ∷ [] } in
          rw found (
            All-append (IsEnough m) (candidate_of q (minimum_sufficient_context q m)) _
              (candidate_of-IsEnough m q q) (variant_candidates-IsEnough model m p vs))
    ]

profile_candidates-IsEnough :
    (model : String) (m : Int64) (p : WorkloadProfile)
    → All (IsEnough m) (profile_candidates model m p)
unfolding profile_candidates
profile_candidates-IsEnough model m p = elim (Bool-cases (not (p.kind == "llm.chat"))) [
  | inl other ↦ rw other tt
  | inr chat ↦ elim (Bool-cases (matches_model p model)) [
    | inl hit ↦ rw (chat, hit) (candidate_of-IsEnough m p p)
    | inr miss ↦
        rw (chat, miss) (variant_candidates-IsEnough model m p (profile_runtime_variants p))
  ]
]

all_candidates-IsEnough :
    (model : String) (m : Int64) (ps : List WorkloadProfile)
    → All (IsEnough m) (all_candidates model m ps)
unfolding all_candidates
all_candidates-IsEnough model m [] = tt
all_candidates-IsEnough model m (p ∷ ps) =
    All-append (IsEnough m) (profile_candidates model m p) (all_candidates model m ps)
      (profile_candidates-IsEnough model m p) (all_candidates-IsEnough model m ps)

by_context-IsOrder : IsOrder by_context
by_context-IsOrder = record { asym = λ a b h. ground arith; up = λ a b c h k. ground arith }

-- What a client gets of the candidates.
pub data Outcome (m : Int64) (cs : List Candidate) : WorkloadProfile × Option Error → Type 0 where
  nothing : (p : WorkloadProfile) → cs ≡ [] → Outcome m cs (p, some model_not_found)
  best :
      (c : Candidate)
      → Mem c cs
      → lt64 c.context m ≡ false
      → All (λ d. lt64 d.context c.context ≡ false) cs
      → Outcome m cs (c.profile, none)

-- Each item of a list is one of it.
All-members {ℓ} : {A : Type ℓ} (xs : List A) → All (λ x. Mem x xs) xs
All-members [] = tt
All-members (x ∷ xs) = (
  mem-cons_self,
  All-map (λ y. Mem y xs) (λ y. Mem y (x ∷ xs)) xs (λ y h. mem-cons_of_mem x h) (All-members xs),
)

first_sufficient-Outcome :
    (m : Int64) (cs sorted : List Candidate)
    → sorted ≢ []
    → All (λ c. Mem c cs) sorted
    → All (IsEnough m) sorted
    → IsSorted by_context sorted
    → ((P : Candidate → Type 0) → All P sorted → All P cs)
    → Outcome m cs (first_sufficient m sorted)
unfolding first_sufficient
first_sufficient-Outcome m cs [] n i a s back = absurd (n refl)
first_sufficient-Outcome m cs (c ∷ rest) n i a s back =
    let fits : le64 m c.context ≡ true = ground arith in
    rw fits (best c i.0 a.0 (back (λ d. lt64 d.context c.context ≡ false) (ground arith, s.0)))

choose-Outcome :
    (m : Int64) (cs : List Candidate) → All (IsEnough m) cs → Outcome m cs (choose m cs)
unfolding choose
choose-Outcome m [] a = nothing _ refl
choose-Outcome m (c ∷ cs) a =
    first_sufficient-Outcome m (c ∷ cs) (sort_stable by_context (c ∷ cs))
      (sort_stable-ne_nil by_context c cs)
      (All-sort_stable by_context (λ d. Mem d (c ∷ cs)) (c ∷ cs) (All-members (c ∷ cs)))
      (All-sort_stable by_context (IsEnough m) (c ∷ cs) a)
      (sort_stable-IsSorted by_context by_context-IsOrder (c ∷ cs))
      (λ P. All-of_sort_stable by_context P (c ∷ cs))

-- The resolver either finds no candidate and says `model_not_found`, or returns one of the candidates,
-- whose context is not below the wanted one nor above any other candidate's. It never answers
-- `insufficient_context`.
pub resolve_llm_profile-Outcome :
    (db : Database) (model : String) (m : Int64)
    → Outcome m (all_candidates model m (values db.profiles)) (resolve_llm_profile db model m)
unfolding resolve_llm_profile
resolve_llm_profile-Outcome db model m =
    choose-Outcome m (all_candidates model m (values db.profiles))
      (all_candidates-IsEnough model m (values db.profiles))
