-- ===== src/Profile.antt =====
-- internal/comrad/profile_fit.go: a profile's runtime variants, and the profile that one of them
-- makes effective.
pub mod Variants
pub mod Resolve
use comrad.Prelude.{
  ℕ, String, Bool, true, false, ◌&&◌, ◌||◌, not, List, [], ◌∷◌, ◌++◌, Option, none, some, Int64,
  lt64, eqb, ◌==◌, if◌then◌else◌, map,
}
use comrad.Prelude.Texts.{normalize_sha256}
use comrad.Prelude.Sets.{append_unique}
use comrad.Types.{
  WorkloadProfile, RuntimeModelVariant, RuntimeParameters, Requirements, LlmProfile,
  PlacementAssignment,
}

unfoldable pub profile_logical_model : WorkloadProfile → String
profile_logical_model profile =
    if not (profile.logical_model == "")
    then profile.logical_model
    else if not (profile.alias == "")
    then profile.alias
    else if not (profile.name == "")
    then profile.name
    else profile.id

-- `x == nil` and `len(x) == 0`.
abbrev pub or_else {ℓ} : {A : Type ℓ} → Option A → Option A → Option A
or_else none d = d
or_else (some a) d = some a

abbrev pub or_list {ℓ} : {A : Type ℓ} → List A → List A → List A
or_list [] d = d
or_list (x ∷ xs) d = x ∷ xs

abbrev pub or_text : String → String → String
or_text s d = if s == "" then d else s

abbrev pub or_runtime : RuntimeParameters → RuntimeParameters → RuntimeParameters
or_runtime r d = elim r.llama_cpp.args [ [] ↦ d | x ∷ xs ↦ r ]

abbrev pub required_target : Option Requirements → String
required_target none = ""
required_target (some req) = req.target

unfoldable pub normalize_variant : WorkloadProfile → RuntimeModelVariant → RuntimeModelVariant
normalize_variant profile variant =
    let requirements = or_else variant.requirements profile.requirements in
    record variant {
      id = or_text (or_text variant.id profile.runtime_variant_id) profile.id;
      runtime_adapter = or_text variant.runtime_adapter profile.runtime_adapter;
      artifacts = or_list variant.artifacts profile.artifacts;
      requirements = requirements;
      llm = or_else variant.llm profile.llm;
      runtime = or_runtime variant.runtime profile.runtime;
      target = or_text variant.target (required_target requirements);
    }

-- The variant that a profile without variants stands for.
abbrev pub own_variant : WorkloadProfile → RuntimeModelVariant
own_variant profile = record {
  id = profile.runtime_variant_id;
  name = "";
  target = "";
  runtime_adapter = profile.runtime_adapter;
  artifacts = profile.artifacts;
  requirements = profile.requirements;
  llm = profile.llm;
  runtime = profile.runtime;
  metadata = [];
}

variants_of : WorkloadProfile → List RuntimeModelVariant → List RuntimeModelVariant
variants_of profile [] = normalize_variant profile (own_variant profile) ∷ []
variants_of profile (v ∷ vs) = map (normalize_variant profile) (v ∷ vs)

unfoldable pub profile_runtime_variants : WorkloadProfile → List RuntimeModelVariant
unfolding variants_of
profile_runtime_variants profile = variants_of profile profile.runtime_variants

unfoldable pub effective_profile_for_variant :
    WorkloadProfile → RuntimeModelVariant → WorkloadProfile
effective_profile_for_variant profile variant =
    let v = normalize_variant profile variant in
    record profile {
      logical_model = profile_logical_model profile;
      runtime_variant_id = v.id;
      runtime_adapter = v.runtime_adapter;
      artifacts = v.artifacts;
      requirements = v.requirements;
      llm = v.llm;
      runtime = v.runtime;
      runtime_variants = [];
    }

abbrev pub first_text : List String → String
first_text [] = ""
first_text (x ∷ xs) = x

unfoldable pub concrete_model_artifact_id : WorkloadProfile → String
concrete_model_artifact_id profile = first_text profile.artifacts

unfoldable pub concrete_model_sha256 : WorkloadProfile → String
concrete_model_sha256 profile = normalize_sha256 (concrete_model_artifact_id profile)

-- `profileVersion` of internal/comrad/compute_accounting.go.
unfoldable pub profile_version : WorkloadProfile → Int64
profile_version profile = if lt64 0 profile.version then profile.version else 1

add_all : List String → List String → List String
add_all ids [] = ids
add_all ids (x ∷ xs) = add_all (append_unique ids x) xs

add_variants : List String → List RuntimeModelVariant → List String
unfolding add_all
add_variants ids [] = ids
add_variants ids (v ∷ vs) = add_variants (add_all ids v.artifacts) vs

unfoldable pub profile_artifact_ids : WorkloadProfile → List String
unfolding add_all add_variants
profile_artifact_ids profile =
    add_variants (add_all [] profile.artifacts) (profile_runtime_variants profile)

effective_named : WorkloadProfile → String → List RuntimeModelVariant → WorkloadProfile
effective_named profile id [] = profile
effective_named profile id (v ∷ vs) =
    let rest = effective_named profile id vs in
    if v.id == id then effective_profile_for_variant profile v else rest

unfoldable pub effective_profile_for_assignment :
    WorkloadProfile → PlacementAssignment → WorkloadProfile
unfolding effective_named
effective_profile_for_assignment profile assignment =
    if assignment.runtime_variant_id == ""
    then profile
    else effective_named profile assignment.runtime_variant_id (profile_runtime_variants profile)
