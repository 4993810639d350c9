-- ===== src/Fit/Best.antt =====
-- internal/comrad/fit.go and profile_fit.go: the variant that is chosen for a slot.
use comrad.Prelude.{
  ◌≡◌, ap, refl, inl, inr, Bool, true, false, List, [], ◌∷◌, ◌++◌, arith, Bool-cases, All,
}
use comrad.Types.{Node, Slot, WorkloadProfile, RuntimeModelVariant, FitResult}
use comrad.Profile.{profile_runtime_variants, effective_profile_for_variant}
use comrad.Fit.{
  fit_concrete, Search, no_variant_fits, try_variants, best_variant_for_slot, fit_profile_to_slot,
}

-- One of the variants is chosen, and the answer is its fit.
abbrev pub effective_fits : WorkloadProfile → Node → Slot → RuntimeModelVariant → Bool
effective_fits profile node slot v =
    (fit_concrete (effective_profile_for_variant profile v) node slot).fits

-- The answer for a list of variants: the first that fits, or none does and the answer says so.
pub data Chosen (profile : WorkloadProfile) (node : Node) (slot : Slot)
    : List RuntimeModelVariant → WorkloadProfile × FitResult → Type 0 where
  nobody :
      {vs : List RuntimeModelVariant} (best : WorkloadProfile) (fit : FitResult)
      → All (λ v. effective_fits profile node slot v ≡ false) vs
      → fit.fits ≡ false
      → Chosen profile node slot vs (best, fit)
  found :
      {vs : List RuntimeModelVariant} (before : List RuntimeModelVariant) (v : RuntimeModelVariant)
      (later : List RuntimeModelVariant)
      → vs ≡ before ++ v ∷ later
      → All (λ w. effective_fits profile node slot w ≡ false) before
      → effective_fits profile node slot v ≡ true
      → Chosen profile node slot vs (
        effective_profile_for_variant profile v,
        fit_concrete (effective_profile_for_variant profile v) node slot,
      )

-- The search so far has kept no fit that fits.
no_variant_fits-fits :
    (profile : WorkloadProfile) (node : Node) (slot : Slot) (s : Search)
    → s.best_fit.fits ≡ false
    → (no_variant_fits profile node slot s).1.fits ≡ false
unfolding no_variant_fits
no_variant_fits-fits profile node slot s h = ground arith

try_variants-Chosen :
    (profile : WorkloadProfile) (node : Node) (slot : Slot) (s : Search)
    (vs : List RuntimeModelVariant)
    → s.best_fit.fits ≡ false
    → Chosen profile node slot vs (try_variants profile node slot s vs)
unfolding try_variants
try_variants-Chosen profile node slot s [] h =
    nobody _ _ tt (no_variant_fits-fits profile node slot s h)
try_variants-Chosen profile node slot s (v ∷ vs) h =
    elim (Bool-cases (effective_fits profile node slot v)) [
      | inl e ↦ simp e (found [] v vs refl tt e)
      | inr e ↦ simp e (longer e (try_variants-Chosen profile node slot (after s v) vs e))
    ]
  where
    after : Search → RuntimeModelVariant → Search
    after s' w = record {
      best = effective_profile_for_variant profile w;
      best_fit = fit_concrete (effective_profile_for_variant profile w) node slot;
      miss = s'.miss ++ (fit_concrete (effective_profile_for_variant profile w) node slot).reasons;
    }

    longer :
        {r : WorkloadProfile × FitResult}
        → effective_fits profile node slot v ≡ false
        → Chosen profile node slot vs r
        → Chosen profile node slot (v ∷ vs) r
    longer e (nobody best fit a f) = nobody best fit (e, a) f
    longer e (found before w later q a f) = found (v ∷ before) w later (ap (◌∷◌ v) q) (e, a) f

-- The first of the profile's variants whose effective profile fits the slot is chosen with its fit;
-- if none fits, the answer does not fit either.
pub best_variant_for_slot-Chosen :
    (profile : WorkloadProfile) (node : Node) (slot : Slot)
    → Chosen profile node slot
        (profile_runtime_variants profile)
        (best_variant_for_slot profile node slot)
unfolding best_variant_for_slot
best_variant_for_slot-Chosen profile node slot =
    try_variants-Chosen profile node slot _ (profile_runtime_variants profile) refl

-- A profile that a variant made effective is fitted by the code below the guard.
pub fit_profile_to_slot-effective :
    (profile : WorkloadProfile) (v : RuntimeModelVariant) (node : Node) (slot : Slot)
    → fit_profile_to_slot (effective_profile_for_variant profile v) node slot
      ≡ fit_concrete (effective_profile_for_variant profile v) node slot
unfolding fit_profile_to_slot effective_profile_for_variant
fit_profile_to_slot-effective profile v node slot = ground arith
