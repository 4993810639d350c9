-- ===== src/Fit/Admits.antt =====
-- internal/comrad/fit.go: what a profile must meet to fit a slot, stated on its own, and the checks.
use comrad.Prelude.{
  ◌≡◌, ◌≢◌, ◌↔◌, ◌⊎◌, refl, subst, String, Bool, true, false, ◌&&◌, not, Option, none, some, Int64,
  lt64, arith, eq_iff, All, List, [], ◌∷◌, ◌++◌, ◌==◌, if◌then◌else◌, Bool-cases, inl, inr,
}
use comrad.Prelude.Sets.{contains, has_all_sound, has_all_complete}
use comrad.Types.{
  Node, Slot, ResourceBudget, WorkloadProfile, RuntimeModelVariant, Requirements, FitResult,
  is_disabled,
}
use comrad.Profile.{
  concrete_model_artifact_id, profile_runtime_variants, effective_profile_for_variant,
}
use comrad.Fit.Best.{Chosen, nobody, found, effective_fits, best_variant_for_slot-Chosen}
use comrad.Fit.{
  new_fit_result, mark_if, check_node_admission, wanted_adapter, check_runtime_adapter,
  check_resources, check_llm_requirements, fit_required, fit_concrete, fit_profile_to_slot, is_nil,
}

pub record NodeAdmits (node : Node) (slot : Slot) (req : Requirements) : Type 0 where
  pub enabled : is_disabled node.state ≡ false
  pub open_mode : node.mode ≢ "disabled"
  pub healthy_node : node.quarantined ≡ false
  pub healthy_slot : slot.quarantined ≡ false
  pub approved : node.approved ≡ true
  pub right_target : (req.target ≡ "") ⊎ (slot.target ≡ req.target)
  pub tagged : All (λ t. contains node.tags t ≡ true) req.require_tags

abbrev pub AdapterServes : WorkloadProfile → Node → Slot → Requirements → Type 0
AdapterServes profile node slot req =
    (wanted_adapter profile req ≡ "")
    ⊎ (((slot.runtime_adapter ≡ "") ⊎ (slot.runtime_adapter ≡ wanted_adapter profile req))
        × (contains node.runtime_adapters (wanted_adapter profile req) ≡ true))

-- A need that is positive is within a limit that is positive, as signed values.
abbrev pub Within : Int64 → Int64 → Type 0
Within need have = lt64 0 need ≡ true → lt64 0 have ≡ true → lt64 have need ≡ false

pub record ResourcesSuffice (have : ResourceBudget) (req : Requirements) : Type 0 where
  pub ram : Within req.ram_bytes have.ram_bytes
  pub vram : Within req.vram_bytes have.vram_bytes
  pub unified : Within req.unified_memory_bytes have.unified_memory_bytes
  pub disk : Within req.disk_bytes have.disk_bytes

abbrev pub LlmComplete : WorkloadProfile → Type 0
LlmComplete profile =
    (profile.kind ≢ "llm.chat") ⊎ ((profile.llm ≢ none) × (concrete_model_artifact_id profile ≢ ""))

-- All that a profile with requirements must meet.
pub record Admits (profile : WorkloadProfile) (node : Node) (slot : Slot) (req : Requirements)
    : Type 0 where
  pub node_admits : NodeAdmits node slot req
  pub adapter_serves : AdapterServes profile node slot req
  pub resources_suffice : ResourcesSuffice slot.resources req
  pub llm_complete : LlmComplete profile

mark_if-fits :
    (b : Bool) (reason : String) (r : FitResult) → (mark_if b reason r).fits ≡ (not b && r.fits)
unfolding mark_if
mark_if-fits b reason r = ground arith

check_node_admission-fits :
    (node : Node) (slot : Slot) (req : Requirements) (r : FitResult)
    → ((check_node_admission node slot req r).fits ≡ true)
      ↔ ((r.fits ≡ true) × NodeAdmits node slot req)
unfolding check_node_admission mark_if
check_node_admission-fits node slot req r = (
  λ h. ground (
    arith,
    eq_iff node.mode "disabled",
    eq_iff req.target "",
    eq_iff slot.target req.target,
    has_all_sound node.tags req.require_tags,
  ),
  λ (f, a). ground (
    arith,
    a.open_mode,
    eq_iff node.mode "disabled",
    eq_iff req.target "",
    eq_iff slot.target req.target,
    has_all_complete node.tags req.require_tags a.tagged,
  ),
)

check_runtime_adapter-fits :
    (profile : WorkloadProfile) (node : Node) (slot : Slot) (req : Requirements) (r : FitResult)
    → ((check_runtime_adapter profile node slot req r).fits ≡ true)
      ↔ ((r.fits ≡ true) × AdapterServes profile node slot req)
unfolding check_runtime_adapter mark_if
check_runtime_adapter-fits profile node slot req r = (
  λ h. ground (
    arith,
    eq_iff (wanted_adapter profile req) "",
    eq_iff slot.runtime_adapter "",
    eq_iff slot.runtime_adapter (wanted_adapter profile req),
  ),
  λ h. ground (
    arith,
    eq_iff (wanted_adapter profile req) "",
    eq_iff slot.runtime_adapter "",
    eq_iff slot.runtime_adapter (wanted_adapter profile req),
  ),
)

check_resources-fits :
    (have : ResourceBudget) (req : Requirements) (r : FitResult)
    → ((check_resources have req r).fits ≡ true) ↔ ((r.fits ≡ true) × ResourcesSuffice have req)
unfolding check_resources mark_if
check_resources-fits have req r =
    (λ h. ground arith, λ (f, a). ground (arith, a.ram, a.vram, a.unified, a.disk))

check_llm_requirements-fits :
    (profile : WorkloadProfile) (r : FitResult)
    → ((check_llm_requirements profile r).fits ≡ true) ↔ ((r.fits ≡ true) × LlmComplete profile)
unfolding check_llm_requirements mark_if
check_llm_requirements-fits profile r = (
  λ h.
      ground
        (arith, eq_iff profile.kind "llm.chat", eq_iff (concrete_model_artifact_id profile) ""),
  λ h.
      ground
        (arith, eq_iff profile.kind "llm.chat", eq_iff (concrete_model_artifact_id profile) ""),
)

fit_required-Admits :
    (profile : WorkloadProfile) (node : Node) (slot : Slot) (o : Option Requirements)
    → ((fit_required profile node slot o).fits ≡ true)
      ↔ ((req : Requirements) × (o ≡ some req) × Admits profile node slot req)
unfolding fit_required
fit_required-Admits profile node slot none = (λ h. cc, λ (req, e, a). cc)
fit_required-Admits profile node slot (some req) =
    let r0 = new_fit_result profile node slot in
    let r1 = check_node_admission node slot req r0 in
    let r2 = check_runtime_adapter profile node slot req r1 in
    let r3 = check_resources slot.resources req r2 in
    (
      λ h.
          let (h3, llm) = (check_llm_requirements-fits profile r3).0 h in
          let (h2, res) = (check_resources-fits slot.resources req r2).0 h3 in
          let (h1, ada) = (check_runtime_adapter-fits profile node slot req r1).0 h2 in
          let (h0, adm) = (check_node_admission-fits node slot req r0).0 h1 in
          (
            req,
            refl,
            record {
              node_admits = adm;
              adapter_serves = ada;
              resources_suffice = res;
              llm_complete = llm;
            },
          ),
      λ (req', e, a').
          let same : req' ≡ req = cc in
          let a : Admits profile node slot req = subst (λ q. Admits profile node slot q) same a' in
          (check_llm_requirements-fits profile r3).1 (
            (check_resources-fits slot.resources req r2).1 (
              (check_runtime_adapter-fits profile node slot req r1).1 (
                (check_node_admission-fits node slot req r0).1 (refl, a.node_admits),
                a.adapter_serves,
              ),
              a.resources_suffice,
            ),
            a.llm_complete,
          ),
    )

-- The profile states its requirements, and they admit the slot.
abbrev pub IsAdmitted : WorkloadProfile → Node → Slot → Type 0
IsAdmitted profile node slot =
    (req : Requirements) × (profile.requirements ≡ some req) × Admits profile node slot req

fit_concrete-Admits :
    (profile : WorkloadProfile) (node : Node) (slot : Slot)
    → ((fit_concrete profile node slot).fits ≡ true) ↔ IsAdmitted profile node slot
unfolding fit_concrete
fit_concrete-Admits profile node slot = fit_required-Admits profile node slot profile.requirements

-- Whether one of the profile's runtime variants is still to be chosen.
abbrev pub has_choice : WorkloadProfile → Bool
has_choice profile = profile.runtime_variant_id == "" && not (is_nil profile.runtime_variants)

-- What may run for a profile: itself, or where there is a choice, one of its variants.
pub data Offers (profile : WorkloadProfile) : WorkloadProfile → Type 0 where
  itself : has_choice profile ≡ false → Offers profile profile
  variant :
      has_choice profile ≡ true
      → (before : List RuntimeModelVariant) (v : RuntimeModelVariant)
        (later : List RuntimeModelVariant)
      → profile_runtime_variants profile ≡ before ++ v ∷ later
      → Offers profile (effective_profile_for_variant profile v)

All-at {ℓ κ} :
    {A : Type ℓ} (P : A → Type κ) (before : List A) (x : A) (later : List A)
    → All P (before ++ x ∷ later)
    → P x
All-at P [] x later a = a.0
All-at P (b ∷ before) x later a = All-at P before x later a.1

-- The answer of the search fits exactly if some variant's effective profile does.
module _ (profile : WorkloadProfile) (node : Node) (slot : Slot) where
  abbrev Answered : WorkloadProfile × FitResult → FitResult
  Answered r = if r.1.fits then fit_concrete r.0 node slot else r.1

  chosen-some :
      {vs : List RuntimeModelVariant} {r : WorkloadProfile × FitResult}
      → Chosen profile node slot vs r
      → (Answered r).fits ≡ true
      → (before : List RuntimeModelVariant) × (v : RuntimeModelVariant) × (later : List
          RuntimeModelVariant)
        × (vs ≡ before ++ v ∷ later)
        × (effective_fits profile node slot v ≡ true)
  chosen-some (nobody best fit a none_fits) h = absurd (ground (arith, none_fits, h))
  chosen-some (found before v later q a fits) h = (before, v, later, q, fits)

  chosen-fits :
      {vs : List RuntimeModelVariant} {r : WorkloadProfile × FitResult}
      → Chosen profile node slot vs r
      → (before : List RuntimeModelVariant) (v : RuntimeModelVariant)
        (later : List RuntimeModelVariant)
      → vs ≡ before ++ v ∷ later
      → effective_fits profile node slot v ≡ true
      → (Answered r).fits ≡ true
  chosen-fits (nobody best fit a none_fits) before v later q h =
      let misses = λ (w : RuntimeModelVariant). effective_fits profile node slot w ≡ false in
      let miss = All-at misses before v later (subst (All misses) q a) in
      absurd (ground (arith, miss, h))
  chosen-fits (found before' w later' q' a fits) before v later q h = rw fits refl

offered_fits :
    (profile : WorkloadProfile) (node : Node) (slot : Slot) (run : WorkloadProfile)
    → Offers profile run
    → IsAdmitted run node slot
    → (fit_profile_to_slot profile node slot).fits ≡ true
unfolding fit_profile_to_slot
offered_fits profile node slot _ (itself e) a = rw e ((fit_concrete-Admits profile node slot).1 a)
offered_fits profile node slot _ (variant e before v later q) a =
    let fits = (fit_concrete-Admits (effective_profile_for_variant profile v) node slot).1 a in
    rw e (
      chosen-fits profile node slot (best_variant_for_slot-Chosen profile node slot) before v later
        q fits)

-- A profile fits a slot of a node exactly if something that may run for it, itself or one of its
-- variants where there is a choice, states its requirements and these admit the slot: the node
-- enabled, approved and, like the slot, not quarantined; target, tags and adapter as required; every
-- positive need within every positive limit; and, for a chat profile, an LLM section and a model.
pub fit_profile_to_slot-Admits :
    (profile : WorkloadProfile) (node : Node) (slot : Slot)
    → ((fit_profile_to_slot profile node slot).fits ≡ true)
      ↔ ((run : WorkloadProfile) × Offers profile run × IsAdmitted run node slot)
unfolding fit_profile_to_slot
fit_profile_to_slot-Admits profile node slot =
    let chosen = best_variant_for_slot-Chosen profile node slot in
    (
      λ h. elim (Bool-cases (has_choice profile)) [
        | inr e ↦ (profile, itself e, (fit_concrete-Admits profile node slot).0 (rw e at h))
        | inl e ↦
            let (before, v, later, q, fits) = chosen-some profile node slot chosen (rw e at h) in
            let run = effective_profile_for_variant profile v in
            (run, variant e before v later q, (fit_concrete-Admits run node slot).0 fits)
      ],
      λ (run, offered, admitted). offered_fits profile node slot run offered admitted,
    )
