-- ===== src/Profile/Resolve.antt =====
-- internal/comrad/profile_fit.go: the profile that a client's model name and context stand for.
-- Candidates of one context stand in any order after Go's `sort.Slice`, here in the stable one.
pub mod Best
use comrad.Prelude.{
  String, Bool, true, false, ◌&&◌, ◌||◌, not, List, [], ◌∷◌, ◌++◌, Option, none, some, Int64, lt64,
  le64, eqb, ◌==◌, if◌then◌else◌,
}
use comrad.Prelude.Sort.{sort_stable}
use comrad.Prelude.Dict.{values}
use comrad.Types.{
  WorkloadProfile, RuntimeModelVariant, Error, zero_profile, model_not_found, insufficient_context,
}
use comrad.Store.{Database}
use comrad.Profile.{profile_logical_model, profile_runtime_variants}

-- The context that a variant offers, unless it lacks its requirements or its LLM section.
abbrev pub offered_context : RuntimeModelVariant → Option Int64
offered_context v = elim v.requirements [
  | none ↦ none
  | some req ↦ elim v.llm [ none ↦ none | some llm ↦ some llm.context_tokens ]
]

-- The loop's body: `best` is 0 before the first context that suffices.
unfoldable pub better_context : Int64 → Int64 → Option Int64 → Int64
better_context min_context best none = best
better_context min_context best (some ctx) =
    if lt64 ctx min_context then best else if eqb best 0 || lt64 ctx best then ctx else best

unfoldable pub best_context : Int64 → Int64 → List RuntimeModelVariant → Int64
unfolding better_context
best_context min_context best [] = best
best_context min_context best (v ∷ vs) =
    best_context min_context (better_context min_context best (offered_context v)) vs

unfoldable pub minimum_sufficient_context : WorkloadProfile → Int64 → Int64
unfolding best_context
minimum_sufficient_context profile min_context =
    best_context min_context 0 (profile_runtime_variants profile)

pub record Candidate : Type 0 where
  pub profile : WorkloadProfile
  pub context : Int64

abbrev candidate_of : WorkloadProfile → Int64 → List Candidate
candidate_of profile ctx =
    if lt64 0 ctx then record { profile = profile; context = ctx } ∷ [] else []

variant_candidates : String → Int64 → WorkloadProfile → List RuntimeModelVariant → List Candidate
variant_candidates model min_context profile [] = []
variant_candidates model min_context profile (v ∷ vs) =
    let rest = variant_candidates model min_context profile vs in
    let effective = record profile { runtime_variants = v ∷ [] } in
    if not (v.id == model) && not (v.name == model)
    then rest
    else candidate_of effective (minimum_sufficient_context effective min_context) ++ rest

matches_model : WorkloadProfile → String → Bool
matches_model profile model =
    profile.id == model
    || profile.name == model
    || profile.alias == model
    || profile_logical_model profile == model

unfoldable pub profile_candidates : String → Int64 → WorkloadProfile → List Candidate
unfolding variant_candidates matches_model
profile_candidates model min_context profile =
    if not (profile.kind == "llm.chat")
    then []
    else if matches_model profile model
    then candidate_of profile (minimum_sufficient_context profile min_context)
    else variant_candidates model min_context profile (profile_runtime_variants profile)

unfoldable pub all_candidates : String → Int64 → List WorkloadProfile → List Candidate
unfolding profile_candidates
all_candidates model min_context [] = []
all_candidates model min_context (p ∷ ps) =
    profile_candidates model min_context p ++ all_candidates model min_context ps

abbrev pub by_context : Candidate → Candidate → Bool
by_context a b = lt64 a.context b.context

first_sufficient : Int64 → List Candidate → WorkloadProfile × Option Error
first_sufficient min_context [] = (zero_profile, some insufficient_context)
first_sufficient min_context (c ∷ cs) =
    let rest = first_sufficient min_context cs in
    if le64 min_context c.context then (c.profile, none) else rest

choose : Int64 → List Candidate → WorkloadProfile × Option Error
unfolding first_sufficient
choose min_context [] = (zero_profile, some model_not_found)
choose min_context (c ∷ cs) = first_sufficient min_context (sort_stable by_context (c ∷ cs))

unfoldable pub resolve_llm_profile : Database → String → Int64 → WorkloadProfile × Option Error
unfolding choose
resolve_llm_profile db model min_context =
    choose min_context (all_candidates model min_context (values db.profiles))
