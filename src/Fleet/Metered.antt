-- ===== src/Fleet/Metered.antt =====
-- What the metrics of pkg/dynamicwatch/metrics.go show of a watcher that alone in its process follows
-- its CRD.
use mathlib.Core.Path.{subst}
use dynamic_crd_watch.Base.{
  ℕ, ◌≡◌, ◌≢◌, refl, sym, ◌∙◌, ap, String, Bool, false, inl, inr, Option, none, some, List, arith,
  str_eq, eq_iff, update, update_here, update_apart, Bool-cases, ℕ_discrete,
}
use dynamic_crd_watch.Watcher.{
  Runtime, Transition, activated, deactivated, invalidated, sync_failed,
}
use dynamic_crd_watch.System.{System, Step}
use dynamic_crd_watch.Fleet.{
  Metrics, set_active, count_transition, write_metrics, write_if, newest, publish, Fleet, FleetStep,
  acts, FleetReach, fresh, after,
}
use dynamic_crd_watch.Fleet.Written.{recorded, shown, count, Step-written}

-- The value of the gauge for a CRD; a series that nobody has written is 0.
abbrev pub gauge_of : Metrics → String → Bool
gauge_of m crd = elim (m.active crd) [ none ↦ false | some value ↦ value ]

-- The series of a CRD are what its watcher has written.
pub record IsMetered {rt : Runtime} (m : Metrics) (s : System rt) : Type 0 where
  pub gauge : gauge_of m s.crd_name ≡ s.gauge
  pub counts :
      (transition : Transition)
      → m.state_transitions s.crd_name transition ≡ count transition s.transitions

-- No other watcher follows the CRD of the watcher `i`.
abbrev pub IsAlone : {rt : Runtime} → ℕ → Fleet rt → Type 0
IsAlone i f = (j : ℕ) → (f.watchers j).crd_name ≡ (f.watchers i).crd_name → j ≡ i

write_gauge :
    (crd : String) (w : Option Transition) (m : Metrics) {before now : Bool}
    → now ≡ shown w before
    → gauge_of m crd ≡ before
    → gauge_of (write_if crd w now m) crd ≡ now
unfolding write_metrics set_active count_transition
write_gauge crd none m e h = h ∙ sym e
write_gauge crd (some activated) m e h = ground (arith, eq_iff crd crd)
write_gauge crd (some deactivated) m e h = ground (arith, eq_iff crd crd)
write_gauge crd (some invalidated) m e h = ground (arith, eq_iff crd crd)
write_gauge crd (some sync_failed) m e h = h ∙ sym e

write_count :
    (crd : String) (w : Option Transition) (now : Bool) (m : Metrics) (l : List Transition)
    (t : Transition)
    → m.state_transitions crd t ≡ count t l
    → (write_if crd w now m).state_transitions crd t ≡ count t (recorded w l)
unfolding write_metrics set_active count_transition
write_count crd none now m l t e = e
write_count crd (some activated) now m l t e = ground (arith, eq_iff crd crd)
write_count crd (some deactivated) now m l t e = ground (arith, eq_iff crd crd)
write_count crd (some invalidated) now m l t e = ground (arith, eq_iff crd crd)
write_count crd (some sync_failed) now m l t e = ground (arith, eq_iff crd crd)

write_elsewhere :
    (crd other : String) (w : Option Transition) (now : Bool) (m : Metrics)
    → str_eq other crd ≡ false
    → (gauge_of (write_if crd w now m) other ≡ gauge_of m other)
      × ((t : Transition)
          → (write_if crd w now m).state_transitions other t ≡ m.state_transitions other t)
unfolding write_metrics set_active count_transition
write_elsewhere crd other none now m apart = (refl, λ t. refl)
write_elsewhere crd other (some activated) now m apart = (ground arith, λ t. ground arith)
write_elsewhere crd other (some deactivated) now m apart = (ground arith, λ t. ground arith)
write_elsewhere crd other (some invalidated) now m apart = (ground arith, λ t. ground arith)
write_elsewhere crd other (some sync_failed) now m apart = (ground arith, λ t. ground arith)

acting-IsMetered :
    {rt : Runtime} {s t : System rt} (m : Metrics)
    → Step s t
    → IsMetered m s
    → IsMetered (publish s t m) t
acting-IsMetered {s = s} {t} m st h =
    let w = newest s.transitions t.transitions in
    let (transitions, gauge, name) = Step-written st in
    record {
      gauge = ap (gauge_of (publish s t m)) name ∙ write_gauge s.crd_name w m gauge h.gauge;
      counts = λ x.
          ap (λ crd. (publish s t m).state_transitions crd x) name
          ∙ write_count s.crd_name w t.gauge m s.transitions x (h.counts x)
          ∙ ap (count x) (sym transitions);
    }

module _ {rt : Runtime} (f : Fleet rt) (i : ℕ) (metered : IsMetered f.metrics (f.watchers i))
    (j : ℕ) {t : System rt} (st : Step (f.watchers j) t) where
  abbrev metrics : Metrics
  metrics = publish (f.watchers j) t f.metrics

  apart-IsMetered : IsAlone i f → j ≢ i → IsMetered metrics (f.watchers i)
  apart-IsMetered alone differs =
      let apart : str_eq (f.watchers i).crd_name (f.watchers j).crd_name ≡ false =
        elim (Bool-cases (str_eq (f.watchers i).crd_name (f.watchers j).crd_name)) [
          | inl same ↦ absurd (differs (alone j (sym ((eq_iff _ _).0 same))))
          | inr apart ↦ apart
        ] in
      let (gauge, counts) =
        write_elsewhere _ _ (newest (f.watchers j).transitions t.transitions) t.gauge f.metrics
          apart in
      record { gauge = gauge ∙ metered.gauge; counts = λ x. counts x ∙ metered.counts x }

  moved-IsMetered : IsAlone i f → IsMetered metrics (update f.watchers j t i)
  moved-IsMetered alone = elim (ℕ_discrete j i) [
    | yes e ↦
        let own = subst (λ x. IsMetered f.metrics (f.watchers x)) (sym e) metered in
        subst (λ x. IsMetered metrics (update f.watchers j t x)) e
          (subst (IsMetered metrics) (sym (update_here f.watchers j t))
            (acting-IsMetered f.metrics st own))
    | no differs ↦
        subst (IsMetered metrics) (sym (update_apart f.watchers j t i differs))
          (apart-IsMetered alone differs)
  ]

-- A step leaves the names of the CRDs.
FleetStep-names :
    {rt : Runtime} {f g : Fleet rt}
    → FleetStep f g
    → (i : ℕ) → (g.watchers i).crd_name ≡ (f.watchers i).crd_name
FleetStep-names {f = f} (acts j {t} st) i =
    let (_, _, name) = Step-written st in
    elim (ℕ_discrete j i) [
      | yes e ↦
          subst (λ x. (update f.watchers j t x).crd_name ≡ (f.watchers x).crd_name) e
            (ap (λ s. s.crd_name) (update_here f.watchers j t) ∙ name)
      | no differs ↦ ap (λ s. s.crd_name) (update_apart f.watchers j t i differs)
    ]

FleetStep-IsMetered :
    {rt : Runtime} {f g : Fleet rt}
    → FleetStep f g
    → (i : ℕ) → IsAlone i f
    → IsMetered f.metrics (f.watchers i)
    → IsMetered g.metrics (g.watchers i)
FleetStep-IsMetered {f = f} (acts j st) i alone metered = moved-IsMetered f i metered j st alone

-- A watcher that alone follows its CRD has written the series of the CRD.
pub FleetReach-IsMetered :
    {rt : Runtime} {n : ℕ} {f : Fleet rt}
    → FleetReach n f
    → (i : ℕ) → IsAlone i f
    → IsMetered f.metrics (f.watchers i)
FleetReach-IsMetered (fresh a b c o) i alone = record { gauge = refl; counts = λ t. refl }
FleetReach-IsMetered (after {f = f} r st) i alone =
    let before : IsAlone i f =
      λ j e. alone j (FleetStep-names st j ∙ e ∙ sym (FleetStep-names st i)) in
    FleetStep-IsMetered st i before (FleetReach-IsMetered r i before)
