-- ===== src/Fit.antt =====
-- internal/comrad/fit.go: whether a profile fits a slot of a node, with the reasons where it does
-- not. `BestVariantForSlot` and `FitProfileToSlot` call each other once: the profile that a variant
-- makes effective has no variants, so its fit is `fit_concrete`, the code below the guard.
pub mod Admits
pub mod Best
use comrad.Prelude.{
  ℕ, String, Bool, true, false, ◌&&◌, ◌||◌, not, List, [], ◌∷◌, ◌++◌, Option, none, some, Int64,
  lt64, eqb, ◌==◌, if◌then◌else◌, text_ltb, map,
}
use comrad.Prelude.Texts.{join_commas, replace_separators}
use comrad.Prelude.Sets.{contains, has_all, unique_sorted}
use comrad.Prelude.Sort.{sort_stable}
use comrad.Prelude.Dict.{Dict, lookup, values}
use comrad.Types.{
  Node, Slot, ResourceBudget, WorkloadProfile, RuntimeModelVariant, Requirements, LlmProfile,
  FitResult, PlacementAssignment, Time, zero_profile, zero_fit, is_disabled, is_cached, is_warming,
  is_ready, is_serving, failure_unknown_requirements, failure_quarantined,
  failure_target_unsupported, failure_runtime_adapter_missing, failure_resource_exhausted_ram,
  failure_resource_exhausted_vram, failure_resource_exhausted_disk,
}
use comrad.Store.{Database}
use comrad.Profile.{
  profile_logical_model, profile_runtime_variants, effective_profile_for_variant, profile_version,
  concrete_model_artifact_id, concrete_model_sha256,
}
use Prim.Native.String

abbrev pub new_fit_result : WorkloadProfile → Node → Slot → FitResult
new_fit_result profile node slot = record {
  profile_id = profile.id;
  logical_model = profile_logical_model profile;
  runtime_variant_id = profile.runtime_variant_id;
  slot_id = slot.id;
  node_id = node.id;
  fits = true;
  reasons = [];
}

abbrev pub mark_fit : String → FitResult → FitResult
mark_fit reason result = record result { fits = false; reasons = result.reasons ++ reason ∷ [] }

-- `if test { markFit(result, reason) }`.
unfoldable pub mark_if : Bool → String → FitResult → FitResult
mark_if true reason result = mark_fit reason result
mark_if false reason result = result

unfoldable pub check_node_admission : Node → Slot → Requirements → FitResult → FitResult
check_node_admission node slot req r =
    let r1 = mark_if (is_disabled node.state || node.mode == "disabled") "node_disabled" r in
    let r2 = mark_if node.quarantined failure_quarantined r1 in
    let r3 = mark_if slot.quarantined failure_quarantined r2 in
    let r4 = mark_if (not node.approved) "node_not_approved" r3 in
    let r5 =
      mark_if (not (req.target == "") && not (slot.target == req.target)) failure_target_unsupported
        r4 in
    mark_if (not (has_all node.tags req.require_tags)) "missing_required_tags" r5

-- The adapter that the requirements name, or else the profile.
abbrev pub wanted_adapter : WorkloadProfile → Requirements → String
wanted_adapter profile req =
    if req.runtime_adapter == "" then profile.runtime_adapter else req.runtime_adapter

unfoldable pub check_runtime_adapter :
    WorkloadProfile → Node → Slot → Requirements → FitResult → FitResult
check_runtime_adapter profile node slot req r =
    let adapter = wanted_adapter profile req in
    if adapter == ""
    then r
    else if not (slot.runtime_adapter == "") && not (slot.runtime_adapter == adapter)
    then mark_fit failure_runtime_adapter_missing r
    else mark_if (not (contains node.runtime_adapters adapter)) failure_runtime_adapter_missing r

-- A requirement and a limit count only where both are positive.
abbrev pub exhausted : Int64 → Int64 → Bool
exhausted need have = lt64 0 need && lt64 0 have && lt64 have need

unfoldable pub check_resources : ResourceBudget → Requirements → FitResult → FitResult
check_resources resources req r =
    let r1 =
      mark_if (exhausted req.ram_bytes resources.ram_bytes) failure_resource_exhausted_ram r in
    let r2 =
      mark_if (exhausted req.vram_bytes resources.vram_bytes) failure_resource_exhausted_vram r1 in
    let r3 =
      mark_if (exhausted req.unified_memory_bytes resources.unified_memory_bytes)
        "resource_exhausted_unified_memory" r2 in
    mark_if (exhausted req.disk_bytes resources.disk_bytes) failure_resource_exhausted_disk r3

abbrev pub is_none {ℓ} : {A : Type ℓ} → Option A → Bool
is_none none = true
is_none (some a) = false

unfoldable pub check_llm_requirements : WorkloadProfile → FitResult → FitResult
check_llm_requirements profile r =
    if not (profile.kind == "llm.chat")
    then r
    else if is_none profile.llm
    then mark_fit "missing_llm_section" r
    else mark_if (concrete_model_artifact_id profile == "") "missing_model_artifact" r

abbrev pub sort_reasons : FitResult → FitResult
sort_reasons r = record r { reasons = sort_stable text_ltb r.reasons }

-- The four checks, one after the other.
unfoldable pub checked : WorkloadProfile → Node → Slot → Requirements → FitResult → FitResult
checked profile node slot req r = check_llm_requirements profile (
    check_resources slot.resources req
      (check_runtime_adapter profile node slot req (check_node_admission node slot req r)))

-- `FitProfileToSlot` below its guard. The sort of no reasons at all is skipped there.
fit_required : WorkloadProfile → Node → Slot → Option Requirements → FitResult
unfolding checked
fit_required profile node slot none =
    mark_fit failure_unknown_requirements (new_fit_result profile node slot)
fit_required profile node slot (some req) =
    sort_reasons (checked profile node slot req (new_fit_result profile node slot))

unfoldable pub fit_concrete : WorkloadProfile → Node → Slot → FitResult
unfolding fit_required
fit_concrete profile node slot = fit_required profile node slot profile.requirements

-- The loop of `BestVariantForSlot`, with what it has seen so far.
pub record Search : Type 0 where
  pub best : WorkloadProfile
  pub best_fit : FitResult
  pub miss : List String

no_variant_fits : WorkloadProfile → Node → Slot → Search → WorkloadProfile × FitResult
no_variant_fits profile node slot s =
    let best = if s.best.id == "" then profile else s.best in
    let fit : FitResult =
      if s.best_fit.profile_id == ""
      then record {
        profile_id = profile.id;
        logical_model = profile_logical_model profile;
        runtime_variant_id = "";
        slot_id = slot.id;
        node_id = node.id;
        fits = false;
        reasons = failure_unknown_requirements ∷ [];
      }
      else s.best_fit in
    (
      best,
      elim s.miss [
        | [] ↦ fit
        | r ∷ rs ↦ record fit { reasons = unique_sorted (r ∷ rs); fits = false }
      ],
    )

unfoldable pub try_variants :
    WorkloadProfile → Node → Slot → Search → List RuntimeModelVariant → WorkloadProfile × FitResult
unfolding no_variant_fits
try_variants profile node slot s [] = no_variant_fits profile node slot s
try_variants profile node slot s (v ∷ vs) =
    let effective = effective_profile_for_variant profile v in
    let fit = fit_concrete effective node slot in
    let rest =
      try_variants profile node slot
        (record { best = effective; best_fit = fit; miss = s.miss ++ fit.reasons }) vs in
    if fit.fits then (effective, fit) else rest

unfoldable pub best_variant_for_slot : WorkloadProfile → Node → Slot → WorkloadProfile × FitResult
best_variant_for_slot profile node slot =
    try_variants profile node slot (record { best = zero_profile; best_fit = zero_fit; miss = [] })
      (profile_runtime_variants profile)

abbrev pub is_nil {ℓ} : {A : Type ℓ} → List A → Bool
is_nil [] = true
is_nil (x ∷ xs) = false

-- The two results are bound by one call in the source; the second call is of the effective profile,
-- which has no variants.
unfoldable pub fit_profile_to_slot : WorkloadProfile → Node → Slot → FitResult
fit_profile_to_slot profile node slot =
    let (effective, fit) = best_variant_for_slot profile node slot in
    if profile.runtime_variant_id == "" && not (is_nil profile.runtime_variants)
    then (if fit.fits then fit_concrete effective node slot else fit)
    else fit_concrete profile node slot

unfoldable pub slot_profile_current : Slot → String → WorkloadProfile → Bool
slot_profile_current slot profile_id profile =
    slot.profile_id == profile_id
    && eqb slot.profile_version (profile_version profile)
    && slot.logical_model == profile_logical_model profile
    && slot.runtime_variant_id == profile.runtime_variant_id
    && slot.model_artifact_id == concrete_model_artifact_id profile
    && slot.model_sha256 == concrete_model_sha256 profile

unfoldable pub assignment_id : String → String → String → String
assignment_id profile_id node_id slot_id = String.◌++◌ "asg_" (
    replace_separators
      (String.◌++◌ profile_id (String.◌++◌ "_" (String.◌++◌ node_id (String.◌++◌ "_" slot_id)))))

-- The last test of `assignmentFromFit` asks for `DesiredWarm`, which is not set there.
unfoldable pub assignment_from_fit :
    String → WorkloadProfile → Slot → FitResult → Time → PlacementAssignment
assignment_from_fit profile_id profile slot fit now =
    let current = slot_profile_current slot profile_id profile in
    record {
      id = assignment_id profile_id slot.node_id slot.id;
      profile_id = profile_id;
      logical_model = profile_logical_model profile;
      runtime_variant_id = profile.runtime_variant_id;
      model_artifact_id = concrete_model_artifact_id profile;
      model_sha256 = concrete_model_sha256 profile;
      node_id = slot.node_id;
      slot_id = slot.id;
      desired_cached = false;
      desired_warm = false;
      actual_cached =
          current
          && (is_cached slot.state
              || is_warming slot.state
              || is_ready slot.state
              || is_serving slot.state);
      actual_warm = current && (is_ready slot.state || is_serving slot.state);
      is_ready =
          current && is_ready slot.state && slot.active_task_id == "" && not slot.quarantined;
      draining = false;
      mismatch_reason = if fit.fits then "" else join_commas fit.reasons;
      updated_at = now;
    }

-- `BuildFitMatrix`: the rows of one slot, and of one profile.
slot_rows : WorkloadProfile → Slot → Option Node → List FitResult
slot_rows profile slot none =
    record {
      profile_id = profile.id;
      logical_model = profile_logical_model profile;
      runtime_variant_id = "";
      slot_id = slot.id;
      node_id = slot.node_id;
      fits = false;
      reasons = "node_missing" ∷ [];
    }
    ∷ []
slot_rows profile slot (some node) =
    map (λ v. fit_profile_to_slot (effective_profile_for_variant profile v) node slot)
      (profile_runtime_variants profile)

fit_rows : Dict Node → WorkloadProfile → List Slot → List FitResult
unfolding slot_rows
fit_rows nodes profile [] = []
fit_rows nodes profile (slot ∷ slots) =
    slot_rows profile slot (lookup slot.node_id nodes) ++ fit_rows nodes profile slots

fit_tables : Dict Node → List Slot → List WorkloadProfile → List FitResult
fit_tables nodes slots [] = []
fit_tables nodes slots (p ∷ ps) = fit_rows nodes p slots ++ fit_tables nodes slots ps

abbrev pub by_slot_id : Slot → Slot → Bool
by_slot_id a b = text_ltb a.id b.id

abbrev pub by_profile_id : WorkloadProfile → WorkloadProfile → Bool
by_profile_id a b = text_ltb a.id b.id

-- `SortedSlots` and `SortedProfiles` of internal/comrad/store.go; ids of one table are distinct.
unfoldable pub sorted_slots : Database → List Slot
sorted_slots db = sort_stable by_slot_id (values db.slots)

unfoldable pub sorted_profiles : Database → List WorkloadProfile
sorted_profiles db = sort_stable by_profile_id (values db.profiles)

pub build_fit_matrix : Database → List FitResult
unfolding fit_rows fit_tables
build_fit_matrix db = fit_tables db.nodes (sorted_slots db) (sorted_profiles db)
