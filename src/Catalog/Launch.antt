-- ===== src/Catalog/Launch.antt =====
-- internal/comrad/manager_admin.go and worker_runtime.go: a worker makes the arguments of a server for
-- every profile that the manager takes, where llama.cpp runs it.
use comrad.Prelude.{
  Bool, keep, ◌≡◌, refl, subst, sym, String, List, [], ◌∷◌, ◌++◌, Option, none, some, ℕ, arith, All,
  map, if◌then◌else◌, Bool-cases, inl, inr,
}
use comrad.Types.{Time, WorkloadProfile, RuntimeModelVariant, RuntimeParameters, Error}
use comrad.Store.{Database}
use comrad.Profile.{
  normalize_variant, effective_profile_for_variant, profile_runtime_variants, own_variant, or_text,
  or_runtime,
}
use comrad.Profile.Variants.{profile_runtime_variants_elim, effective_profile-normalize_variant}
use comrad.LlamaServer.{
  is_llama_cpp_adapter, validate_llama_server_profile_args, llama_server_args, own_args,
  ModelSupportArtifact,
}
use comrad.LlamaServer.Managed.{Unmanaged, llama_server_args_of_valid, validate-Unmanaged}
use comrad.ProfileConfig.{
  first_error-none, validate_variant_runtimes, validate_workload_profile_runtime,
}
use comrad.Catalog.{upsert_profile, unless_error, profile_refusal}

-- A server for the profile starts with the worker's own arguments and then the profile's, none of which
-- is managed.
unfoldable pub CanStart : String → List ModelSupportArtifact → ℕ → WorkloadProfile → Type 0
CanStart model support port profile =
    (llama_server_args profile model support port
      ≡ (own_args profile model support port ++ profile.runtime.llama_cpp.args, none))
    × Unmanaged profile.runtime.llama_cpp.args

-- What is left of that for a profile that may have another adapter.
abbrev CanStartIfLlama : String → List ModelSupportArtifact → ℕ → WorkloadProfile → Type 0
CanStartIfLlama model support port profile =
    if is_llama_cpp_adapter profile.runtime_adapter
    then CanStart model support port profile
    else Unit

validated-CanStart :
    (model : String) (support : List ModelSupportArtifact) (port : ℕ) (p : WorkloadProfile)
    → (if is_llama_cpp_adapter p.runtime_adapter
        then validate_llama_server_profile_args p.runtime.llama_cpp.args
        else none)
      ≡ none
    → CanStartIfLlama model support port p
unfolding CanStart
validated-CanStart model support port p h =
    elim (Bool-cases (is_llama_cpp_adapter p.runtime_adapter)) [
      | inl e ↦
          let valid : validate_llama_server_profile_args p.runtime.llama_cpp.args ≡ none =
            rw e at h in
          rw (e, llama_server_args_of_valid p model support port valid)
            (refl, validate-Unmanaged p.runtime.llama_cpp.args valid)
      | inr e ↦ rw e tt
    ]

All-kept {ℓ κ} :
    {A : Type ℓ} (P : A → Type κ) (p : A → Bool) (xs : List A)
    → All (λ x. if p x then P x else Unit) xs
    → All P (keep p xs)
All-kept P p [] a = tt
All-kept P p (x ∷ xs) a = elim (Bool-cases (p x)) [
  | inl e ↦ rw e (rw e at a.0, All-kept P p xs a.1)
  | inr e ↦ rw e (All-kept P p xs a.1)
]

-- The variants of a profile that a worker may run: it refuses every adapter but llama.cpp.
abbrev pub llama_variants : WorkloadProfile → List RuntimeModelVariant
llama_variants p =
    keep (λ v. is_llama_cpp_adapter (effective_profile_for_variant p v).runtime_adapter)
      (profile_runtime_variants p)

-- The variants of the loop, normalised as `profileRuntimeVariants` gives them.
variants-CanStart :
    (model : String) (support : List ModelSupportArtifact) (port : ℕ) (p : WorkloadProfile)
    (vs : List RuntimeModelVariant)
    → validate_variant_runtimes p vs ≡ none
    → All
        (λ v. CanStartIfLlama model support port (effective_profile_for_variant p v))
        (map (normalize_variant p) vs)
unfolding validate_variant_runtimes effective_profile_for_variant
variants-CanStart model support port p [] h = tt
variants-CanStart model support port p (v ∷ vs) h =
    let split : ((if is_llama_cpp_adapter (normalize_variant p v).runtime_adapter
            then validate_llama_server_profile_args (normalize_variant p v).runtime.llama_cpp.args
            else none)
          ≡ none)
        × (validate_variant_runtimes p vs ≡ none) =
      ground (arith, h) in
    (
      subst (CanStartIfLlama model support port) (sym (effective_profile-normalize_variant p v))
          (validated-CanStart model support port (effective_profile_for_variant p v) split.0),
      variants-CanStart model support port p vs split.1,
    )

or_text_same : (s : String) → or_text s s ≡ s
or_text_same s = ground arith

or_runtime_same : (r : RuntimeParameters) → or_runtime r r ≡ r
or_runtime_same r = ground arith

unless_error-none :
    (refusal : Option Error) (db written : Database)
    → (unless_error refusal db written).1 ≡ none
    → refusal ≡ none
unfolding unless_error
unless_error-none none db written h = refl
unless_error-none (some e) db written h = absurd (ground (arith, h))

-- The manager takes a profile. Then for each of its runtime variants whose adapter is llama.cpp, the only
-- one that a worker runs, a worker makes the arguments of the server without an error: its own, and then
-- the profile's, none of which is one that COMRAD manages.
pub upsert_profile-CanStart :
    (model : String) (support : List ModelSupportArtifact) (port : ℕ) (p : WorkloadProfile)
    (now : Time) (db : Database)
    → (upsert_profile p now db).1 ≡ none
    → All (λ v. CanStart model support port (effective_profile_for_variant p v)) (llama_variants p)
unfolding upsert_profile profile_refusal validate_workload_profile_runtime
    effective_profile_for_variant normalize_variant
upsert_profile-CanStart model support port p now db accepted =
    let refusal = unless_error-none (profile_refusal p db) db _ accepted in
    let valid = (first_error-none _ _ (first_error-none _ _ refusal).1).0 in
    let (own, variants) = first_error-none _ _ valid in
    All-kept (λ v. CanStart model support port (effective_profile_for_variant p v))
      (λ v. is_llama_cpp_adapter (effective_profile_for_variant p v).runtime_adapter)
      (profile_runtime_variants p)
      (profile_runtime_variants_elim
        (All (λ v. CanStartIfLlama model support port (effective_profile_for_variant p v))) p
        (
          subst (CanStartIfLlama model support port)
              (sym (effective_profile-normalize_variant p (own_variant p)))
              (validated-CanStart model support port
                (effective_profile_for_variant p (own_variant p))
                (rw (or_text_same p.runtime_adapter, or_runtime_same p.runtime) own)),
          tt,
        )
        (variants-CanStart model support port p p.runtime_variants variants))
