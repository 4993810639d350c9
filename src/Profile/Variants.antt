-- ===== src/Profile/Variants.antt =====
-- internal/comrad/profile_fit.go: normalising a variant, which the code does twice on the way to an
-- effective profile, is done for good the first time.
use comrad.Prelude.{
  ◌≡◌, refl, ap, ◌∙◌, String, List, [], ◌∷◌, Option, none, some, Int64, arith, map,
}
use comrad.Types.{Time, WorkloadProfile, RuntimeModelVariant, RuntimeParameters}
use comrad.Profile.{
  normalize_variant, effective_profile_for_variant, or_text, or_list, or_else, or_runtime,
  required_target, variants_of, profile_artifact_ids, profile_runtime_variants, add_variants,
  add_all, own_variant,
}

or_text_idem : (s d : String) → or_text (or_text s d) d ≡ or_text s d
or_text_idem s d = ground arith

-- The id takes two defaults.
or_text_twice :
    (s c d : String) → or_text (or_text (or_text (or_text s c) d) c) d ≡ or_text (or_text s c) d
or_text_twice s c d = ground arith

or_list_idem {ℓ} : {A : Type ℓ} (s d : List A) → or_list (or_list s d) d ≡ or_list s d
or_list_idem [] [] = refl
or_list_idem [] (x ∷ d) = refl
or_list_idem (x ∷ s) d = refl

or_else_idem {ℓ} : {A : Type ℓ} (s d : Option A) → or_else (or_else s d) d ≡ or_else s d
or_else_idem none none = refl
or_else_idem none (some x) = refl
or_else_idem (some x) d = refl

or_runtime_idem : (r d : RuntimeParameters) → or_runtime (or_runtime r d) d ≡ or_runtime r d
or_runtime_idem r d = ground arith

-- Normalising a variant again, with the same profile, changes nothing.
normalize_variant_idem :
    (p : WorkloadProfile) (v : RuntimeModelVariant)
    → normalize_variant p (normalize_variant p v) ≡ normalize_variant p v
unfolding normalize_variant
normalize_variant_idem p v = λ i. record {
  id = or_text_twice v.id p.runtime_variant_id p.id i;
  name = v.name;
  target =
      (ap
            (λ t.
              or_text (or_text v.target (required_target (or_else v.requirements p.requirements)))
                (required_target t))
            (or_else_idem v.requirements p.requirements)
          ∙ or_text_idem v.target (required_target (or_else v.requirements p.requirements)))
        i;
  runtime_adapter = or_text_idem v.runtime_adapter p.runtime_adapter i;
  artifacts = or_list_idem v.artifacts p.artifacts i;
  requirements = or_else_idem v.requirements p.requirements i;
  llm = or_else_idem v.llm p.llm i;
  runtime = or_runtime_idem v.runtime p.runtime i;
  metadata = v.metadata;
}

-- So a variant and its normal form make the same profile effective.
pub effective_profile-normalize_variant :
    (p : WorkloadProfile) (v : RuntimeModelVariant)
    → effective_profile_for_variant p (normalize_variant p v) ≡ effective_profile_for_variant p v
unfolding effective_profile_for_variant
effective_profile-normalize_variant p v = rw (normalize_variant_idem p v)

-- A later version, another date or another price.
abbrev pub revised : Int64 → Time → Int64 → WorkloadProfile → WorkloadProfile
revised version created cost p = record p {
  version = version;
  created_at = created;
  compute_cost = cost;
}

variants_of-revised :
    (v : Int64) (t : Time) (c : Int64) (p : WorkloadProfile) (vs : List RuntimeModelVariant)
    → variants_of (revised v t c p) vs ≡ variants_of p vs
unfolding variants_of normalize_variant
variants_of-revised v t c p [] = refl
variants_of-revised v t c p (w ∷ vs) = ap (λ rest. normalize_variant p w ∷ rest) (tail vs)
  where
    tail :
        (vs : List RuntimeModelVariant)
        → map (normalize_variant (revised v t c p)) vs ≡ map (normalize_variant p) vs
    tail [] = refl
    tail (u ∷ us) = ap (λ rest. normalize_variant p u ∷ rest) (tail us)

pub profile_artifact_ids-revised :
    (v : Int64) (t : Time) (c : Int64) (p : WorkloadProfile)
    → profile_artifact_ids (revised v t c p) ≡ profile_artifact_ids p
unfolding profile_artifact_ids profile_runtime_variants
profile_artifact_ids-revised v t c p =
    ap (add_variants (add_all [] p.artifacts)) (variants_of-revised v t c p p.runtime_variants)

-- What holds of the one variant that a profile without variants stands for, and of those that a
-- profile has, normalised, holds of its runtime variants.
pub profile_runtime_variants_elim {ℓ} :
    (P : List RuntimeModelVariant → Type ℓ) (p : WorkloadProfile)
    → P (normalize_variant p (own_variant p) ∷ [])
    → P (map (normalize_variant p) p.runtime_variants)
    → P (profile_runtime_variants p)
unfolding profile_runtime_variants variants_of
profile_runtime_variants_elim P p own given = pick p.runtime_variants given
  where
    pick : (vs : List RuntimeModelVariant) → P (map (normalize_variant p) vs) → P (variants_of p vs)
    pick [] given = own
    pick (v ∷ vs) given = given
