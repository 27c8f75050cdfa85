-- ===== src/Fleet.antt =====
-- All watchers of one process, each with its goroutines and its private cache as in System, and the two
-- metrics of pkg/dynamicwatch/metrics.go, which they share: their series are told apart by nothing but
-- the name of the CRD.
pub mod Projection
pub mod Written
pub mod Metered
pub mod Counted
pub mod Reported
use dynamic_crd_watch.Base.{
  ℕ, suc, String, Bool, true, false, Option, none, some, List, [], ◌∷◌, ◌==◌, str_eq, update, leb,
  if◌then◌else◌,
}
use dynamic_crd_watch.Base.Lists.{length}
use dynamic_crd_watch.Base.Text.{Text}
use dynamic_crd_watch.Watcher.{
  Runtime, Transition, activated, deactivated, invalidated, sync_failed, new_watcher,
}
use dynamic_crd_watch.System.{System, Step, new_system}

-- The values of `dynamicwatch_active` and `dynamicwatch_state_transitions_total` by the label `crd`;
-- `none` is a series that nobody has written.
pub record Metrics : Type 0 where
  pub active : String → Option Bool
  pub state_transitions : String → Transition → ℕ

-- The metrics as they are registered when the process starts.
abbrev pub new_metrics : Metrics
new_metrics = record { active = λ crd. none; state_transitions = λ crd transition. 0 }

abbrev pub transition_eq : Transition → Transition → Bool
transition_eq activated activated = true
transition_eq deactivated deactivated = true
transition_eq invalidated invalidated = true
transition_eq sync_failed sync_failed = true
transition_eq _ _ = false

-- `watcherActive.WithLabelValues(crd).Set(…)`
unfoldable pub set_active : String → Bool → Metrics → Metrics
set_active crd value m = record m {
  active = λ name. if str_eq name crd then some value else m.active name;
}

-- `watcherTransitions.WithLabelValues(crd, transition).Inc()`
unfoldable pub count_transition : String → Transition → Metrics → Metrics
count_transition crd transition m = record m {
  state_transitions = λ name other.
      let before = m.state_transitions name other in
      if str_eq name crd
      then (if transition_eq other transition then suc before else before)
      else before;
}

-- What a watcher writes for a transition after which its gauge has the value `shown`: a failed sync
-- leaves the gauge alone.
unfoldable pub write_metrics : String → Transition → Bool → Metrics → Metrics
unfolding set_active count_transition
write_metrics crd sync_failed shown m = count_transition crd sync_failed m
write_metrics crd transition shown m = count_transition crd transition (set_active crd shown m)

abbrev pub write_if : String → Option Transition → Bool → Metrics → Metrics
write_if crd none shown m = m
write_if crd (some transition) shown m = write_metrics crd transition shown m

-- The transition by which the transitions of a watcher have grown; the newest come first.
abbrev pub newest : List Transition → List Transition → Option Transition
newest before [] = none
newest before (transition ∷ rest) =
    if leb (length before) (length rest) then some transition else none

-- What a step of a watcher does to the metrics: whatever the operations of the watcher have done to its
-- own transitions and gauge, for the series of its CRD.
abbrev pub publish : {rt : Runtime} → System rt → System rt → Metrics → Metrics
publish s t m = write_if s.crd_name (newest s.transitions t.transitions) t.gauge m

-- The watchers, by number; `Runtime` is what each of them takes from outside, and the state of that
-- is its own.
pub record Fleet (rt : Runtime) : Type 0 where
  pub watchers : ℕ → System rt
  pub metrics : Metrics

-- One of the watchers takes a step.
pub data FleetStep {rt : Runtime} (f : Fleet rt) : Fleet rt → Type 1 where
  acts :
      (i : ℕ) {t : System rt}
      → (st : Step (f.watchers i) t)
      → FleetStep f (record {
        watchers = update f.watchers i t;
        metrics = publish (f.watchers i) t f.metrics;
      })

-- The fleets after `n` steps from watchers that are new.
pub data FleetReach {rt : Runtime} : ℕ → Fleet rt → Type 1 where
  fresh :
      (crd_name : ℕ → String) (condition_type : ℕ → Text) (recorder : ℕ → Bool)
      (outside : ℕ → rt.Outside)
      → FleetReach 0 (record {
        watchers = λ i.
            new_system rt (new_watcher (crd_name i) (condition_type i) (recorder i)) (outside i);
        metrics = new_metrics;
      })
  after : {n : ℕ} {f g : Fleet rt} → FleetReach n f → FleetStep f g → FleetReach (suc n) g
