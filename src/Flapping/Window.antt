-- ===== src/Flapping/Window.antt =====
-- internal/comrad/manager_worker_flapping.go: which events count, and what maintenance leaves.
use comrad.Prelude.{
  keep, ltb, ◌+◌, ◌||◌, ℕ, ◌<◌, ◌≡◌, refl, String, Bool, false, not, List, [], ◌∷◌, ◌++◌, arith,
  ◌==◌, length, any, All, All-keep, Bool-cases, inl, inr, leb,
}
use comrad.Prelude.Dict.{Dict, map_values, values}
use comrad.Types.{Time, Node, WorkerFlapEvent}
use comrad.Store.{Database}
use comrad.Flapping.{
  ManagerConfig, too_old, worker_flap_threshold, worker_flap_window, worker_flap_cooldown,
  prune_worker_flap_events, record_worker_flap_event, node_warm_placement_suppressed,
  clear_expired_worker_suppression, maintain_node, node_needs_maintenance,
  clear_expired_suppressions, needs_worker_flap_maintenance, maintain_suppressions,
}

worker_flap_cooldown-positive : (cfg : ManagerConfig) → 0 < worker_flap_cooldown cfg
unfolding worker_flap_cooldown
worker_flap_cooldown-positive cfg = ground arith

pruned-recent :
    (now window : ℕ) (events : List WorkerFlapEvent)
    → All (λ e. too_old now window e ≡ false) (prune_worker_flap_events events now window)
unfolding prune_worker_flap_events
pruned-recent now window events =
    All-keep (λ e. too_old now window e ≡ false) (λ e. not (too_old now window e)) events
      (λ e h. ground arith)

-- The events that count once one more is recorded: those of the window, and the new one.
abbrev pub recorded_events :
    List WorkerFlapEvent → String → Time → ManagerConfig → List WorkerFlapEvent
recorded_events events kind now cfg =
    keep (λ e. not (ltb (e.at + worker_flap_window cfg) now)) events
    ++ record { kind = kind; at = now } ∷ []

-- What recording an event leaves.
pub record Recorded (kind : String) (now : Time) (cfg : ManagerConfig) (before after : Node)
    : Type 0 where
  pub events : after.recent_flap_events ≡ recorded_events before.recent_flap_events kind now cfg
  pub suppressed : node_warm_placement_suppressed after now ≡ (
      leb
        (worker_flap_threshold cfg)
        (length (recorded_events before.recent_flap_events kind now cfg))
      || node_warm_placement_suppressed before now)

-- An event of a named kind is recorded. Then the node's events are those that lie in the window,
-- in their order, and the new one at the end. Warm placement is suppressed as of now if they reach the
-- threshold, and otherwise exactly if it was suppressed before.
pub record_worker_flap_event-Recorded :
    (node : Node) (kind : String) (now : Time) (cfg : ManagerConfig)
    → (kind == "") ≡ false
    → Recorded kind now cfg node (record_worker_flap_event node kind now cfg)
unfolding record_worker_flap_event node_warm_placement_suppressed prune_worker_flap_events
record_worker_flap_event-Recorded node kind now cfg named =
    let c = worker_flap_cooldown-positive cfg in
    let events = recorded_events node.recent_flap_events kind now cfg in
    elim (Bool-cases (leb (worker_flap_threshold cfg) (length events))) [
      | inl e ↦ rw named (rw e (record { events = refl; suppressed = ground (arith, c) }))
      | inr e ↦ rw named (rw e (record { events = refl; suppressed = ground arith }))
    ]

any-false :
    (p : WorkerFlapEvent → Bool) (es : List WorkerFlapEvent)
    → All (λ e. p e ≡ false) es
    → any p es ≡ false
any-false p [] a = refl
any-false p (e ∷ es) a = ground (arith, a.0, any-false p es a.1)

node_needs_maintenance-maintain_node :
    (now : Time) (cfg : ManagerConfig) (node : Node)
    → node_needs_maintenance now cfg (maintain_node now cfg node) ≡ false
unfolding node_needs_maintenance maintain_node node_warm_placement_suppressed
    clear_expired_worker_suppression
node_needs_maintenance-maintain_node now cfg node =
    let w = worker_flap_window cfg in
    let a =
      any-false (too_old now w) (prune_worker_flap_events node.recent_flap_events now w)
        (pruned-recent now w node.recent_flap_events) in
    ground (arith, a)

no_need :
    (now : Time) (cfg : ManagerConfig) (nodes : Dict Node)
    → any (node_needs_maintenance now cfg) (values (map_values (maintain_node now cfg) nodes))
      ≡ false
unfolding values map_values
no_need now cfg [] = refl
no_need now cfg ((k, n) ∷ nodes) =
    ground (arith, node_needs_maintenance-maintain_node now cfg n, no_need now cfg nodes)

-- After the maintenance of the suppressions no node needs maintenance at the same time.
maintain_suppressions_settled :
    (now : Time) (cfg : ManagerConfig) (db : Database)
    → needs_worker_flap_maintenance now cfg (maintain_suppressions now cfg db) ≡ false
unfolding maintain_suppressions needs_worker_flap_maintenance clear_expired_suppressions
maintain_suppressions_settled now cfg db =
    elim (Bool-cases (any (node_needs_maintenance now cfg) (values db.nodes))) [
      | inl e ↦ rw e (no_need now cfg db.nodes)
      | inr e ↦ rw e e
    ]
