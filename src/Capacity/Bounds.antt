-- ===== src/Capacity/Bounds.antt =====
-- internal/comrad/placement_capacity.go: what a validated policy bounds, and what it does not.
use comrad.Prelude.{
  min, eqb, ltb, ◌&&◌, if◌then◌else◌, refl, ◌≡◌, ◌<◌, ◌≤◌, ◌+◌, max, String, false, List, [], ◌∷◌,
  none, Int64, lt64, eqb, ◌&&◌, max64, max64-max, arith, IsNatural, if◌then◌else◌, All, IsWord,
}
use comrad.Types.{PlacementPolicy}
use comrad.Capacity.{
  validate_placement_policy, first_negative, limits_in_order, policy_counts, clamp_count, Demand,
  smoothed, balanced_capacity,
}

-- The counts of a policy are in the range of the values that are not negative.
pub record NaturalCounts (p : PlacementPolicy) : Type 0 where
  pub cached_count : IsNatural p.cached_count
  pub warm_count : IsNatural p.warm_count
  pub min_cached_count : IsNatural p.min_cached_count
  pub max_cached_count : IsNatural p.max_cached_count
  pub min_warm_count : IsNatural p.min_warm_count
  pub max_warm_count : IsNatural p.max_warm_count
  pub max_cached_profiles_per_node : IsNatural p.max_cached_profiles_per_node
  pub max_warm_profiles_per_node : IsNatural p.max_warm_profiles_per_node

-- What `clampCount` gives on values that are not negative.
clamp_count-IsNatural :
    (value low high : Int64)
    → IsNatural value
    → IsNatural low
    → IsNatural high
    → let r = clamp_count value low high in
      IsNatural r × (r ≡ (if eqb high 0 then max low value else min high (max low value)))
unfolding clamp_count
clamp_count-IsNatural value low high v l h = (ground arith, ground arith)

-- The least number of warm copies that a self-balancing policy asks for: its minimum, or without one
-- its warm count.
abbrev pub own_min_warm : PlacementPolicy → Int64
own_min_warm p =
    if eqb p.min_warm_count 0 && lt64 0 p.warm_count then p.warm_count else p.min_warm_count

own_min_warm-IsNatural : (p : PlacementPolicy) → NaturalCounts p → IsNatural (own_min_warm p)
own_min_warm-IsNatural p n = ground arith

own_min_cached : PlacementPolicy → Int64
own_min_cached p =
    let least = max64 p.min_cached_count (own_min_warm p) in
    if eqb least 0 && lt64 0 p.cached_count then p.cached_count else least

own_min_cached-IsNatural : (p : PlacementPolicy) → NaturalCounts p → IsNatural (own_min_cached p)
unfolding own_min_cached
own_min_cached-IsNatural p n =
    let m = own_min_warm-IsNatural p n in
    ground (arith, max64-max p.min_cached_count (own_min_warm p))

-- The two maxima and the clamps of the capacity, on values that are not negative.
cached_of : Int64 → Int64 → Int64 → Int64
cached_of warm min_cached max_cached =
    max64 (clamp_count (max64 warm min_cached) min_cached max_cached) warm

cached_of-le :
    (warm least high : Int64)
    → IsNatural warm
    → IsNatural least
    → IsNatural high
    → warm ≤ cached_of warm least high
unfolding cached_of
cached_of-le warm least high w l h =
    let m : IsNatural (max64 warm least) = ground (arith, max64-max warm least) in
    let c = (clamp_count-IsNatural (max64 warm least) least high m l h).0 in
    ground (arith, max64-max (clamp_count (max64 warm least) least high) warm)

-- At a demand that is no more than `int64` holds, a self-balancing policy with its counts in range
-- asks for at least as many cached as warm copies, and for as many warm copies as the demand, but no
-- fewer than its minimum and, above all, no more than its maximum, where that is not 0. The minimum is
-- the policy's own, or its warm count where the policy gives none, and the planner is told the same.
pub balanced_capacity_bounds :
    (p : PlacementPolicy) (d : Demand) (cooled : Int64)
    → NaturalCounts p
    → IsNatural (max (d.queued + d.running + smoothed d) cooled)
    → let c = balanced_capacity p d cooled in
      let demand = max (d.queued + d.running + smoothed d) cooled in
      let least = own_min_warm p in
      (c.warm ≤ c.cached)
      × (c.min_warm ≡ least)
      × (c.warm ≡ (
          if eqb p.max_warm_count 0
          then max least demand
          else min p.max_warm_count (max least demand)))
unfolding balanced_capacity own_min_cached cached_of
balanced_capacity_bounds p d cooled n h =
    let demand = max (d.queued + d.running + smoothed d) cooled in
    let w =
      clamp_count-IsNatural demand (own_min_warm p) p.max_warm_count h (own_min_warm-IsNatural p n)
        n.max_warm_count in
    let warm = clamp_count demand (own_min_warm p) p.max_warm_count in
    (
      cached_of-le warm (own_min_cached p) p.max_cached_count w.0 (own_min_cached-IsNatural p n)
          n.max_cached_count,
      refl,
      w.1,
    )

first_negative-none :
    (counts : List (String × Int64))
    → All (λ (name, c). IsWord c) counts
    → first_negative counts ≡ none
    → All (λ (name, c). IsNatural c) counts
unfolding first_negative
first_negative-none [] w h = tt
first_negative-none ((name, c) ∷ rest) w h = ground (arith, first_negative-none rest w.1)

limits_in_order-none :
    (p : PlacementPolicy)
    → NaturalCounts p
    → limits_in_order p ≡ none
    → (0 < p.max_warm_count → p.min_warm_count ≤ p.max_warm_count)
      × (0 < p.max_cached_count → p.min_cached_count ≤ p.max_cached_count)
unfolding limits_in_order
limits_in_order-none p n h = (ground arith, ground arith)

-- A policy that is validated, and whose counts are 64-bit values, has no negative count among the eight,
-- the two per node included, and its minima are not above its positive maxima.
pub validate_placement_policy-NaturalCounts :
    (p : PlacementPolicy)
    → All (λ (name, c). IsWord c) (policy_counts p)
    → validate_placement_policy p ≡ none
    → NaturalCounts p
      × ((ltb 0 p.max_warm_count && ltb p.max_warm_count p.min_warm_count) ≡ false)
      × ((ltb 0 p.max_cached_count && ltb p.max_cached_count p.min_cached_count) ≡ false)
unfolding validate_placement_policy
validate_placement_policy-NaturalCounts p w h =
    let (c, l) : (first_negative (policy_counts p) ≡ none) × (limits_in_order p ≡ none) =
      (ground arith, ground arith) in
    let a = first_negative-none (policy_counts p) w c in
    let n : NaturalCounts p = record {
      cached_count = a.0;
      warm_count = a.1.0;
      min_cached_count = a.1.1.0;
      max_cached_count = a.1.1.1.0;
      min_warm_count = a.1.1.1.1.0;
      max_warm_count = a.1.1.1.1.1.0;
      max_cached_profiles_per_node = a.1.1.1.1.1.1.0;
      max_warm_profiles_per_node = a.1.1.1.1.1.1.1.0;
    } in
    let (x, y) = limits_in_order-none p n l in (n, ground (arith, x), ground (arith, y))

-- A validated self-balancing policy with no minimum of its own takes its warm count for one, also
-- where that is above the maximum: the minimum that the planner places is then above the maximum,
-- and above the count of warm copies that the policy is said to want.
min_warm_above_maximum :
    (p : PlacementPolicy) (d : Demand) (cooled : Int64)
    → NaturalCounts p
    → p.min_warm_count ≡ 0
    → 0 < p.max_warm_count
    → p.max_warm_count < p.warm_count
    → let c = balanced_capacity p d cooled in
      (p.max_warm_count < c.min_warm) × (c.warm < c.min_warm)
unfolding balanced_capacity clamp_count
min_warm_above_maximum p d cooled n z m w = (ground arith, ground arith)
