-- ===== src/Tests/Metering.antt =====
-- Two watchers in one process.
use dynamic_crd_watch.Base.{
  true, ◌↔◌, ◌≡◌, eq_iff, Bool-cases, inl, inr, arith, refl, ℕ, String, ◌≤◌, false, none, ◌==◌,
  codes, update, ℕ_discrete, if◌then◌else◌,
}
use dynamic_crd_watch.Condition.{condition, condition_true, condition_false}
use dynamic_crd_watch.Watcher.{ready, status, available, new_watcher, start}
use dynamic_crd_watch.System.{new_system, starts}
use dynamic_crd_watch.Fleet.{Fleet, acts, FleetReach, fresh, after, new_metrics}
use dynamic_crd_watch.Fleet.Metered.{gauge_of, IsAlone}
use dynamic_crd_watch.Fleet.Reported.{metrics_report}
use dynamic_crd_watch.Tests.Demo.{demo}

-- The watcher 0 follows the themes, and all others follow the plugins.
abbrev name : ℕ → String
name i = if i == 0 then "themes.demo.io" else "plugins.demo.io"

abbrev begun : Fleet demo
begun = record {
  watchers = λ i. new_system demo (new_watcher (name i) (codes "Available") true) false;
  metrics = new_metrics;
}

abbrev both_started : Fleet demo
both_started = record {
  watchers =
      update
        (update begun.watchers 1
          (record (begun.watchers 1) { world = (start none (begun.watchers 1).world).1 }))
        0 (record (begun.watchers 0) { world = (start none (begun.watchers 0).world).1 });
  metrics = new_metrics;
}

FleetReach-both_started : FleetReach 2 both_started
unfolding start ℕ_discrete
FleetReach-both_started =
    after
      (after (fresh name (λ i. codes "Available") (λ i. true) (λ i. false)) (acts 1 (starts none)))
      (acts 0 (starts none))

names : (j : ℕ) → (both_started.watchers j).crd_name ≡ name j
unfolding start
names j = ground arith

name-IsAlone : IsAlone 0 both_started
name-IsAlone j same = elim (Bool-cases (j == 0)) [
  | inl first ↦ ground arith
  | inr later ↦ absurd (ground (arith, names j, names 0, eq_iff "plugins.demo.io" "themes.demo.io"))
]

metrics_report_example :
    let s = both_started.watchers 0 in
    ((status s.watcher).available ≡ available s.watcher)
    × (((status s.watcher).reason ≡ ready) ↔ (available s.watcher ≡ true))
    × ((condition s.watcher).status
        ≡ (if available s.watcher then condition_true else condition_false))
    × (gauge_of new_metrics "themes.demo.io" ≡ available s.watcher)
    × (0 ≤ 0)
    × (0 ≤ 1)
unfolding start ℕ_discrete
metrics_report_example = metrics_report 0 FleetReach-both_started (omega arith) name-IsAlone refl
