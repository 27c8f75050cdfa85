-- ===== src/Fleet/Written.antt =====
-- The transitions that the steps of a watcher write to the metrics of pkg/dynamicwatch/metrics.go.
use dynamic_crd_watch.Base.{
  ℕ, suc, ◌≡◌, Bool, true, false, Option, none, some, List, [], ◌∷◌, arith, refl, sym, ap, ◌∙◌, leb,
  ◌==◌, if◌then◌else◌,
}
use dynamic_crd_watch.Watcher.{
  Runtime, Transition, activated, deactivated, invalidated, sync_failed, start, ensure,
  mark_present, mark_removed, tear_down, requeue, handle_cache_invalidated, promote, fail_sync,
  clean_up, announce, finish,
}
use dynamic_crd_watch.Base.Lists.{length}
use dynamic_crd_watch.System.{
  System, Step, starts, tears_down, invalidates, promotes, gives_up, cleans_up, announces,
}
use dynamic_crd_watch.Fleet.{transition_eq, newest}

abbrev pub recorded : Option Transition → List Transition → List Transition
recorded none l = l
recorded (some transition) l = transition ∷ l

-- The gauge after a transition.
abbrev pub shown : Option Transition → Bool → Bool
shown none before = before
shown (some activated) before = true
shown (some deactivated) before = false
shown (some invalidated) before = false
shown (some sync_failed) before = before

abbrev pub count : Transition → List Transition → ℕ
count transition [] = 0
count transition (other ∷ l) =
    if transition_eq transition other then suc (count transition l) else count transition l

-- The transition that a step makes.
unfoldable made : {rt : Runtime} {s t : System rt} → Step s t → Option Transition
made (tears_down {was_watching} {was_ready} at) = if was_ready then some deactivated else none
made (invalidates j at) = some invalidated
made {s = s} (promotes i {gen} at) = if s.generation == gen then some activated else none
made {s = s} (gives_up i {gen} at) = if s.generation == gen then some sync_failed else none
made _ = none

leb_refl : (n : ℕ) → leb n n ≡ true
leb_refl n = ground arith

leb_over : (n : ℕ) → leb (suc n) n ≡ false
leb_over n = ground arith

newest-recorded : (w : Option Transition) (l : List Transition) → newest l (recorded w l) ≡ w
newest-recorded (some transition) l = rw (leb_refl (length l)) refl
newest-recorded none [] = refl
newest-recorded none (x ∷ l) = rw (leb_over (length l)) refl

-- A step of a watcher makes its transition, on the gauge and the counter.
Step-made :
    {rt : Runtime} {s t : System rt} (st : Step s t)
    → (t.transitions ≡ recorded (made st) s.transitions)
      × (t.gauge ≡ shown (made st) s.gauge)
      × (t.crd_name ≡ s.crd_name)
unfolding start mark_present mark_removed tear_down requeue ensure handle_cache_invalidated promote
    fail_sync clean_up announce finish made
Step-made (starts e) = ground arith
Step-made (tears_down {was_watching} {was_ready} at) = ground arith
Step-made {s = s} (promotes i {gen} at) = ground arith
Step-made {s = s} (gives_up i {gen} {e} at) = ground arith
Step-made (cleans_up i {e} at) = ground arith
Step-made (announces i at) = ground arith
Step-made _ = ground arith

-- The transitions of a watcher grow by at most one in a step, and the gauge is what that one shows.
pub Step-written :
    {rt : Runtime} {s t : System rt}
    → Step s t
    → let w = newest s.transitions t.transitions in
      (t.transitions ≡ recorded w s.transitions)
      × (t.gauge ≡ shown w s.gauge)
      × (t.crd_name ≡ s.crd_name)
Step-written {s = s} {t} st =
    let (transitions, gauge, name) = Step-made st in
    let same : newest s.transitions t.transitions ≡ made st =
      ap (newest s.transitions) transitions ∙ newest-recorded (made st) s.transitions in
    (
      transitions ∙ ap (λ w. recorded w s.transitions) (sym same),
      gauge ∙ ap (λ w. shown w s.gauge) (sym same),
      name,
    )
