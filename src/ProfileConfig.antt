-- ===== src/ProfileConfig.antt =====
-- internal/comrad/profile_config.go: a profile from its configuration, and what is asked of it. The
-- order of the checks is that of the code, which reports the first one that fails.
use comrad.Prelude.{
  ◌≡◌, refl, arith, ℕ, suc, String, Bool, true, false, not, ◌&&◌, List, [], ◌∷◌, Option, none, some,
  Int64, le64, lt64, ◌==◌, if◌then◌else◌, map,
}
use comrad.Prelude.Texts.{normalize_sha256}
use comrad.Types.{
  WorkloadProfile, RuntimeModelVariant, Requirements, LlamaCppParameters, Error, is_required,
  is_negative, kind_not_supported, variant_invalid, zero_profile, zero_time,
}
use comrad.Profile.{normalize_variant}
use comrad.LlamaServer.{is_llama_cpp_adapter, validate_llama_server_profile_args}

pub record ProfileRuntimeConfig : Type 0 where
  pub adapter : String
  pub model_artifacts : List String
  pub context_tokens : Int64
  pub llama_cpp : LlamaCppParameters

pub record ProfileRequirementsConfig : Type 0 where
  pub target : String
  pub ram_bytes : Int64
  pub vram_bytes : Int64
  pub unified_memory_bytes : Int64
  pub disk_bytes : Int64
  pub require_tags : List String
  pub minimum_worker : String

pub record ProfileRuntimeVariantConfig : Type 0 where
  pub id : String
  pub target : String
  pub adapter : String
  pub model_artifacts : List String
  pub context_tokens : Int64
  pub llama_cpp : LlamaCppParameters
  pub requirements : Option ProfileRequirementsConfig

pub record ProfileConfig : Type 0 where
  pub id : String
  pub model : String
  pub kind : String
  pub compute_cost : Int64
  pub runtime : ProfileRuntimeConfig
  pub requirements : ProfileRequirementsConfig
  pub warmable : Bool
  pub runtime_variants : List ProfileRuntimeVariantConfig

-- `err1`, or else `err2`.
abbrev pub first_error : Option Error → Option Error → Option Error
first_error none later = later
first_error (some e) later = some e

pub first_error-none : (a b : Option Error) → first_error a b ≡ none → (a ≡ none) × (b ≡ none)
first_error-none none b h = (refl, h)
first_error-none (some e) b h = absurd (ground (arith, h))

abbrev pub required_if : Bool → String → Option Error
required_if missing field = if missing then some (is_required field) else none

in_variant : ℕ → Option Error → Option Error
in_variant i none = none
in_variant i (some e) = some (variant_invalid i e)

validate_profile_variants_from : ℕ → List ProfileRuntimeVariantConfig → Option Error
unfolding in_variant
validate_profile_variants_from i [] = none
validate_profile_variants_from i (v ∷ vs) =
    let rest = validate_profile_variants_from (suc i) vs in
    first_error
      (in_variant i (
        first_error (required_if (v.id == "") "variantId") (
          first_error (required_if (v.target == "") "target") (
            first_error (required_if (v.adapter == "") "adapter")
              (validate_llama_server_profile_args v.llama_cpp.args)))))
      rest

unfoldable pub validate_profile_variants : List ProfileRuntimeVariantConfig → Option Error
unfolding validate_profile_variants_from
validate_profile_variants variants = validate_profile_variants_from 0 variants

abbrev is_empty {ℓ} : {A : Type ℓ} → List A → Bool
is_empty [] = true
is_empty (x ∷ xs) = false

unfoldable pub validate_profile_config : ProfileConfig → Option Error
validate_profile_config cfg =
    let single = is_empty cfg.runtime_variants in
    first_error (required_if (cfg.id == "") "profileId") (
      first_error (required_if (cfg.model == "") "model") (
        first_error (if not (cfg.kind == "llm.chat") then some kind_not_supported else none) (
          first_error (required_if (cfg.runtime.adapter == "" && single) "runtime.adapter") (
            first_error
              (required_if (is_empty cfg.runtime.model_artifacts && single)
                "runtime.modelArtifacts")
              (first_error
                (required_if (le64 cfg.runtime.context_tokens 0 && single) "runtime.contextTokens")
                (first_error
                  (if lt64 cfg.compute_cost 0 then some (is_negative "computeCost") else none)
                  (first_error (validate_llama_server_profile_args cfg.runtime.llama_cpp.args) (
                    first_error (required_if (cfg.requirements.target == "") "requirements.target")
                      (validate_profile_variants cfg.runtime_variants)))))))))

-- The adapter of the requirements stays empty.
requirements_from : ProfileRequirementsConfig → Requirements
requirements_from r = record {
  target = r.target;
  runtime_adapter = "";
  ram_bytes = r.ram_bytes;
  vram_bytes = r.vram_bytes;
  unified_memory_bytes = r.unified_memory_bytes;
  disk_bytes = r.disk_bytes;
  require_tags = r.require_tags;
  minimum_worker = r.minimum_worker;
}

optional_requirements : Option ProfileRequirementsConfig → Option Requirements
unfolding requirements_from
optional_requirements none = none
optional_requirements (some r) = some (requirements_from r)

-- One turn of the loop over the variants.
unfoldable pub variant_from : ProfileRuntimeVariantConfig → RuntimeModelVariant
unfolding optional_requirements
variant_from v = record {
  id = v.id;
  name = "";
  target = v.target;
  runtime_adapter = v.adapter;
  artifacts = map normalize_sha256 v.model_artifacts;
  requirements = optional_requirements v.requirements;
  llm =
      if lt64 0 v.context_tokens then some (record { context_tokens = v.context_tokens }) else none;
  runtime = record { llama_cpp = v.llama_cpp };
  metadata = [];
}

configured_profile : ProfileConfig → WorkloadProfile
unfolding requirements_from
configured_profile cfg = record {
  id = cfg.id;
  version = 0;
  name = cfg.model;
  alias = cfg.model;
  logical_model = cfg.model;
  runtime_variant_id = "";
  kind = cfg.kind;
  runtime_adapter = cfg.runtime.adapter;
  artifacts = map normalize_sha256 cfg.runtime.model_artifacts;
  requirements = some (requirements_from cfg.requirements);
  llm = some (record { context_tokens = cfg.runtime.context_tokens });
  runtime = record { llama_cpp = cfg.runtime.llama_cpp };
  runtime_variants = map variant_from cfg.runtime_variants;
  compute_cost = cfg.compute_cost;
  warmable = cfg.warmable;
  max_concurrency_per_slot = 1;
  created_at = zero_time;
}

profile_or_error : Option Error → WorkloadProfile → WorkloadProfile × Option Error
profile_or_error none profile = (profile, none)
profile_or_error (some e) profile = (zero_profile, some e)

unfoldable pub profile_from_config : ProfileConfig → WorkloadProfile × Option Error
unfolding configured_profile profile_or_error
profile_from_config cfg = profile_or_error (validate_profile_config cfg) (configured_profile cfg)

-- The loop of `validateWorkloadProfileRuntime` over the variants.
unfoldable pub validate_variant_runtimes : WorkloadProfile → List RuntimeModelVariant → Option Error
validate_variant_runtimes profile [] = none
validate_variant_runtimes profile (v ∷ vs) =
    let rest = validate_variant_runtimes profile vs in
    let normalized = normalize_variant profile v in
    if not (is_llama_cpp_adapter normalized.runtime_adapter)
    then rest
    else first_error (validate_llama_server_profile_args normalized.runtime.llama_cpp.args) rest

unfoldable pub validate_workload_profile_runtime : WorkloadProfile → Option Error
validate_workload_profile_runtime profile =
    first_error
      (if is_llama_cpp_adapter profile.runtime_adapter
        then validate_llama_server_profile_args profile.runtime.llama_cpp.args
        else none)
      (validate_variant_runtimes profile profile.runtime_variants)
