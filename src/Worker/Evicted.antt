-- ===== src/Worker/Evicted.antt =====
-- internal/comrad/worker_cache_evict.go: after an eviction, nothing on the worker uses the artifact.
use comrad.Prelude.{
  ◌≡◌, refl, sym, subst, ◌∙◌, String, Bool, true, false, not, ◌&&◌, ◌||◌, List, [], ◌∷◌, ◌++◌,
  Option, none, some, arith, All, All-map, ◌==◌, eq_iff, eq_refl, Bool-cases, Option-cases, inl,
  inr,
}
use comrad.Prelude.Dict.{Dict, lookup, get_or, has_key, insert, delete, values, lookup-delete}
use comrad.Prelude.Distinct.{Distinct, Distinct-insert}
use comrad.Prelude.Sets.{contains, contains-append}
use comrad.Prelude.Texts.{normalize_sha256, to_lower, trim_space}
use comrad.Types.{Slot, WorkloadProfile, Error, zero_slot, is_serving}
use comrad.Worker.{AssignmentPayload, WorkerModel, send_artifact_state, send_slot_state}
use comrad.Worker.Evict.{
  profile_uses_artifact, assignment_uses_artifact, slot_uses_artifact, EvictionPlan, plan_slots,
  add_keys, plan_artifact_eviction, planned, clear_evicted_slot, delete_keys, clear_slots,
  apply_artifact_eviction, send_slots, evict_stopped, evict_planned, evict_artifact, evict_failed,
  stopped, if_path,
}

-- The entries that the test holds of have a key of the list.
Covered {ℓ} : {V : Type ℓ} → (V → Bool) → List String → Dict V → Type 0
Covered p keys m = All (λ e. (not (p e.1) || contains keys e.0) ≡ true) m

module _ {ℓ} {V : Type ℓ} (p : V → Bool) where
  Covered-delete :
      (k : String) (keys : List String) (m : Dict V)
      → Covered p (k ∷ keys) m
      → Covered p keys (delete k m)
  unfolding Covered delete contains
  Covered-delete k keys [] h = tt
  Covered-delete k keys ((j, v) ∷ m) h = elim (Bool-cases (j == k)) [
    | inl e ↦ rw e (Covered-delete k keys m h.1)
    | inr e ↦ rw e (ground (arith, h.0, e, eq_iff j k, eq_iff k j), Covered-delete k keys m h.1)
  ]

  delete_keys-Covered :
      (keys : List String) (m : Dict V)
      → Covered p keys m
      → All (λ v. p v ≡ false) (values (delete_keys keys m))
  unfolding Covered delete_keys values contains
  delete_keys-Covered [] [] h = tt
  delete_keys-Covered [] ((j, v) ∷ m) h = (ground (arith, h.0), delete_keys-Covered [] m h.1)
  delete_keys-Covered (k ∷ keys) m h =
      delete_keys-Covered keys (delete k m) (Covered-delete k keys m h)

  -- Keys stay once they are there.
  contains-add_keys :
      (m : Dict V) (keys : List String) (k : String)
      → contains keys k ≡ true
      → contains (add_keys p m keys) k ≡ true
  unfolding add_keys
  contains-add_keys [] keys k h = h
  contains-add_keys ((j, v) ∷ m) keys k h = elim (Bool-cases (p v && not (contains keys j))) [
    | inl e ↦ rw e (
        contains-add_keys m (keys ++ j ∷ []) k (ground (arith, h, contains-append keys (j ∷ []) k)))
    | inr e ↦ rw e (contains-add_keys m keys k h)
  ]

  Covered-add_keys : (m : Dict V) (keys : List String) → Covered p (add_keys p m keys) m
  unfolding Covered add_keys contains
  Covered-add_keys [] keys = tt
  Covered-add_keys ((j, v) ∷ m) keys = elim (Bool-cases (p v && not (contains keys j))) [
    | inl e ↦
        let more = keys ++ j ∷ [] in
        let next : add_keys p ((j, v) ∷ m) keys ≡ add_keys p m more = rw e refl in
        let here : contains more j ≡ true =
          ground (arith, contains-append keys (j ∷ []) j, eq_refl j) in
        subst (λ ks. Covered p ks ((j, v) ∷ m)) (sym next)
          (ground (arith, contains-add_keys m more j here), Covered-add_keys m more)
    | inr e ↦
        let next : add_keys p ((j, v) ∷ m) keys ≡ add_keys p m keys = rw e refl in
        subst (λ ks. Covered p ks ((j, v) ∷ m)) (sym next)
          (ground (arith, e, contains-add_keys m keys j), Covered-add_keys m keys)
  ]

  Covered-more :
      (keys more : List String) (m : Dict V)
      → ((k : String) → contains keys k ≡ true → contains more k ≡ true)
      → Covered p keys m
      → Covered p more m
  unfolding Covered
  Covered-more keys more [] f h = tt
  Covered-more keys more ((j, v) ∷ m) f h =
      (ground (arith, h.0, f j), Covered-more keys more m f h.1)

plan_slots-Covered :
    (uses : Slot → Bool) (m : Dict Slot)
    → (plan_slots uses m).1 ≡ none
    → Covered uses (plan_slots uses m).0 m
unfolding Covered plan_slots contains
plan_slots-Covered uses [] h = tt
plan_slots-Covered uses ((id, slot) ∷ m) h =
    let whole = (id, slot) ∷ m in
    let (ids, err) = plan_slots uses m in
    elim (Bool-cases (uses slot)) [
      | inr e ↦
          let next : plan_slots uses whole ≡ (ids, err) = rw e refl in
          let fine : err ≡ none = subst (λ r. r.1 ≡ none) next h in
          subst (λ r. Covered uses r.0 whole) (sym next)
            (ground (arith, e), plan_slots-Covered uses m fine)
      | inl e ↦ elim (Bool-cases (is_serving slot.state || not (slot.active_task_id == ""))) [
        | inl busy ↦ absurd (ground (arith, e, busy, h))
        | inr idle ↦
            let next : plan_slots uses whole ≡ (id ∷ ids, err) = rw (e, idle) refl in
            let fine : err ≡ none = subst (λ r. r.1 ≡ none) next h in
            subst (λ r. Covered uses r.0 whole) (sym next)
              (
                ground (arith, eq_refl id),
                Covered-more uses ids (id ∷ ids) m (λ k there. ground (arith, there))
                    (plan_slots-Covered uses m fine),
              )
      ]
    ]

-- The slot's own model is another one.
abbrev other_model : String → Slot → Bool
other_model artifact slot =
    not (normalize_sha256 slot.model_artifact_id == artifact)
    && not (normalize_sha256 slot.model_sha256 == artifact)

-- A cleared slot leaves the list of those that are still to be cleared.
insert-Covered :
    (q : Slot → Bool) (id : String) (ids : List String) (c : Slot) (m : Dict Slot)
    → Distinct m
    → q c ≡ false
    → Covered q (id ∷ ids) m
    → Covered q ids (insert id c m)
unfolding Covered insert contains has_key lookup
insert-Covered q id ids c [] d free h = (ground (arith, free), tt)
insert-Covered q id ids c ((j, v) ∷ m) d free h = elim (Bool-cases (j == id)) [
  | inl e ↦
      let same : j ≡ id = ground (arith, e, eq_iff j id) in
      rw e (ground (arith, free), rest m (subst (λ i. has_key i m ≡ false) same d.0) h.1)
  | inr e ↦
      rw e
        (ground (arith, h.0, e, eq_iff j id, eq_iff id j), insert-Covered q id ids c m d.1 free h.1)
]
  where
    rest : (m : Dict Slot) → has_key id m ≡ false → Covered q (id ∷ ids) m → Covered q ids m
    rest [] gone h = tt
    rest ((i, w) ∷ m) gone h =
        (ground (arith, gone, h.0, eq_iff i id, eq_iff id i), rest m (ground (arith, gone)) h.1)

clear_slots-Covered :
    (q : Slot → Bool) (ids : List String) (m : Dict Slot)
    → ((s : Slot) → q (clear_evicted_slot s) ≡ false)
    → Distinct m
    → Covered q ids m
    → All (λ s. q s ≡ false) (values (clear_slots ids m))
unfolding clear_slots Covered contains values
clear_slots-Covered q [] [] f d h = tt
clear_slots-Covered q [] ((j, v) ∷ m) f d h =
    (ground (arith, h.0), clear_slots-Covered q [] m f d.1 h.1)
clear_slots-Covered q (id ∷ ids) m f d h =
    let c = clear_evicted_slot (get_or zero_slot id m) in
    clear_slots-Covered q ids (insert id c m) f (Distinct-insert id c m d)
      (insert-Covered q id ids c m d (f (get_or zero_slot id m)) h)

-- What the messages of an eviction leave as it is.
send_slots-worker :
    (ids : List String) (w : WorkerModel)
    → let after = send_slots ids w in
      (after.cache ≡ w.cache)
      × (after.assigns ≡ w.assigns)
      × (after.warm ≡ w.warm)
      × (after.slots ≡ w.slots)
unfolding send_slots send_slot_state
send_slots-worker [] w = (refl, refl, refl, refl)
send_slots-worker (id ∷ ids) w =
    send_slots-worker ids (send_slot_state (get_or zero_slot id w.slots) w)

-- Nothing on the worker uses the artifact: no file, no assignment, no warm profile and no slot.
unfoldable pub IsGone : String → WorkerModel → Type 0
IsGone artifact w =
    (lookup artifact w.cache ≡ none)
    × All (λ a. assignment_uses_artifact artifact a ≡ false) (values w.assigns)
    × All (λ p. profile_uses_artifact artifact p ≡ false) (values w.warm)
    × All (λ s. slot_uses_artifact (values w.assigns) (values w.warm) artifact s ≡ false)
        (values w.slots)

-- Where no assignment and no warm profile uses the artifact, a slot does if its own model is it.
slot_uses-other_model :
    (assigns : List AssignmentPayload) (warm : List WorkloadProfile) (artifact : String) (s : Slot)
    → All (λ a. assignment_uses_artifact artifact a ≡ false) assigns
    → All (λ p. profile_uses_artifact artifact p ≡ false) warm
    → slot_uses_artifact assigns warm artifact s ≡ not (other_model artifact s)
unfolding slot_uses_artifact
slot_uses-other_model [] [] artifact s a p = ground arith
slot_uses-other_model [] (q ∷ warm) artifact s a p =
    ground (arith, p.0, slot_uses-other_model [] warm artifact s a p.1)
slot_uses-other_model (x ∷ assigns) warm artifact s a p =
    ground (arith, a.0, slot_uses-other_model assigns warm artifact s a.1 p)

used-other_model :
    (assigns : List AssignmentPayload) (warm : List WorkloadProfile) (artifact : String) (s : Slot)
    → slot_uses_artifact assigns warm artifact s ≡ false
    → not (other_model artifact s) ≡ false
unfolding slot_uses_artifact
used-other_model assigns warm artifact s h = ground (arith, h)

cleared-other_model :
    (artifact : String)
    → (artifact == "") ≡ false
    → (s : Slot) → not (other_model artifact (clear_evicted_slot s)) ≡ false
unfolding clear_evicted_slot normalize_sha256 to_lower trim_space
cleared-other_model artifact named s = ground (arith, named, eq_iff "" artifact, eq_iff artifact "")

Covered-weaker :
    (p q : Slot → Bool) (ids : List String) (m : Dict Slot)
    → ((s : Slot) → p s ≡ false → q s ≡ false)
    → Covered p ids m
    → Covered q ids m
unfolding Covered
Covered-weaker p q ids [] f h = tt
Covered-weaker p q ids ((j, v) ∷ m) f h = (ground (arith, h.0, f v), Covered-weaker p q ids m f h.1)

apply_artifact_eviction-IsGone :
    (artifact : String) (w : WorkerModel)
    → (artifact == "") ≡ false
    → Distinct w.slots
    → (plan_artifact_eviction artifact w).1 ≡ none
    → IsGone artifact (apply_artifact_eviction artifact (plan_artifact_eviction artifact w).0 w)
unfolding IsGone apply_artifact_eviction plan_artifact_eviction planned
apply_artifact_eviction-IsGone artifact w named d fine =
    let uses = slot_uses_artifact (values w.assigns) (values w.warm) artifact in
    let by_assign = assignment_uses_artifact artifact in
    let by_profile = profile_uses_artifact artifact in
    let other = λ (s : Slot). not (other_model artifact s) in
    let assigned = add_keys by_assign w.assigns [] in
    let all = add_keys by_profile w.warm assigned in
    let ids = (plan_slots uses w.slots).0 in
    elim (Option-cases (plan_slots uses w.slots).1) [
      | inr (x, e) ↦ absurd (ground (arith, fine, e))
      | inl e ↦
          let assigns = delete_keys-Covered by_assign all w.assigns (
            Covered-more by_assign assigned all w.assigns
              (contains-add_keys by_profile w.warm assigned)
              (Covered-add_keys by_assign w.assigns [])) in
          let warm =
            delete_keys-Covered by_profile all w.warm
              (Covered-add_keys by_profile w.warm assigned) in
          let cleared =
            clear_slots-Covered other ids w.slots (cleared-other_model artifact named) d (
              Covered-weaker uses other ids w.slots
                (used-other_model (values w.assigns) (values w.warm) artifact)
                (plan_slots-Covered uses w.slots e)) in
          rw e (
            ground (arith, lookup-delete artifact artifact w.cache, eq_refl artifact),
            assigns,
            warm,
            All-map (λ s. other s ≡ false)
                (λ s.
                  slot_uses_artifact (values (delete_keys all w.assigns))
                    (values (delete_keys all w.warm)) artifact s
                  ≡ false)
                (values (clear_slots ids w.slots))
                (λ s h. slot_uses-other_model _ _ artifact s assigns warm ∙ h) cleared,
          )
    ]

IsGone-same :
    (artifact : String) (w v : WorkerModel)
    → v.cache ≡ w.cache
    → v.assigns ≡ w.assigns
    → v.warm ≡ w.warm
    → v.slots ≡ w.slots
    → IsGone artifact w
    → IsGone artifact v
unfolding IsGone
IsGone-same artifact w v c a p s gone = rw (c, a, p, s) gone

evict_stopped-IsGone :
    (artifact : String) (removed saved : Option String) (plan : EvictionPlan) (w : WorkerModel)
    → IsGone artifact (apply_artifact_eviction artifact plan w)
    → (evict_stopped artifact removed saved plan w).1 ≡ none
    → IsGone artifact (evict_stopped artifact removed saved plan w).0
unfolding evict_stopped evict_failed send_artifact_state
evict_stopped-IsGone artifact (some text) saved plan w gone h = absurd (ground (arith, h))
evict_stopped-IsGone artifact none (some text) plan w gone h = absurd (ground (arith, h))
evict_stopped-IsGone artifact none none plan w gone h =
    let done = apply_artifact_eviction artifact plan w in
    let (c, a, p, s) = send_slots-worker plan.slot_ids done in
    IsGone-same artifact done _ c a p s gone

evict_planned-IsGone :
    (artifact : String) (removed saved : Option String) (w : WorkerModel)
    (planning : EvictionPlan × Option Error)
    → (planning.1 ≡ none → IsGone artifact (apply_artifact_eviction artifact planning.0 w))
    → (evict_planned artifact removed saved planning w).1 ≡ none
    → IsGone artifact (evict_planned artifact removed saved planning w).0
unfolding evict_planned evict_failed stopped apply_artifact_eviction
evict_planned-IsGone artifact removed saved w (plan, some e) gone h = absurd (ground (arith, h))
evict_planned-IsGone artifact removed saved w (plan, none) gone h =
    evict_stopped-IsGone artifact (if_path plan.path removed) saved plan (stopped plan w)
      (IsGone-same artifact (apply_artifact_eviction artifact plan w) _ refl refl refl refl
        (gone refl))
      h

-- If the worker reports no error on an eviction, nothing on it uses the artifact any more: it has no
-- file of it, and no assignment, no warm profile and no slot that names it. The artifact is not empty
-- and the slots have distinct keys.
pub evict_artifact-IsGone :
    (removed saved : Option String) (artifact_id : String) (w : WorkerModel)
    → (normalize_sha256 artifact_id == "") ≡ false
    → Distinct w.slots
    → (evict_artifact removed saved artifact_id w).1 ≡ none
    → IsGone (normalize_sha256 artifact_id) (evict_artifact removed saved artifact_id w).0
unfolding evict_artifact
evict_artifact-IsGone removed saved artifact_id w named d fine =
    let artifact = normalize_sha256 artifact_id in
    let refused : (evict_planned artifact removed saved (plan_artifact_eviction artifact w) w).1
        ≡ none =
      rw named at fine in
    rw named (
      evict_planned-IsGone artifact removed saved w (plan_artifact_eviction artifact w)
        (apply_artifact_eviction-IsGone artifact w named d) refused)
