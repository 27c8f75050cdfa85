-- ===== src/Fleet/Reported.antt =====
-- What the metrics of pkg/dynamicwatch/metrics.go say of a watcher that alone follows its CRD.
use dynamic_crd_watch.Base.{if◌then◌else◌}
use dynamic_crd_watch.Base.{ℕ, suc, ◌+◌, ◌^◌, ◌<◌, ◌≤◌, ◌≡◌, ◌↔◌, ◌∙◌, true, false, arith}
use dynamic_crd_watch.Watcher.{
  Runtime, ready, status, available, activated, deactivated, invalidated,
}
use dynamic_crd_watch.Condition.{condition, condition_true, condition_false}
use dynamic_crd_watch.System.Gauge.{is_tearing}
use dynamic_crd_watch.System.Safety.{status_shown}
use dynamic_crd_watch.Fleet.{Fleet, FleetReach}
use dynamic_crd_watch.Fleet.Projection.{FleetReach-Reach}
use dynamic_crd_watch.Fleet.Counted.{Reach-counts}
use dynamic_crd_watch.Fleet.Metered.{gauge_of, IsAlone, FleetReach-IsMetered}

-- For a watcher whose CRD no other watcher of the process follows, in every state that is reached in
-- fewer than 2 ^ 64 steps, and while its CRD handler is not in the middle of a tear-down, all that
-- reports on the watcher agrees: `Available`, `Status`, whose reason is Ready exactly then,
-- `Condition`, and the gauge of its CRD. The counters of the CRD alternate: it was deactivated no
-- more often than activated, and activated at most once more than deactivated and invalidated.
pub metrics_report :
    {rt : Runtime} {n : ℕ} {f : Fleet rt} (i : ℕ)
    → FleetReach n f
    → n < 2 ^ 64
    → IsAlone i f
    → is_tearing (f.watchers i).crd_handler ≡ false
    → let s = f.watchers i in
      let counter = f.metrics.state_transitions s.crd_name in
      ((status s.watcher).available ≡ available s.watcher)
      × (((status s.watcher).reason ≡ ready) ↔ (available s.watcher ≡ true))
      × ((condition s.watcher).status
          ≡ (if available s.watcher then condition_true else condition_false))
      × (gauge_of f.metrics s.crd_name ≡ available s.watcher)
      × (counter deactivated ≤ counter activated)
      × (counter activated ≤ suc (counter deactivated + counter invalidated))
metrics_report {f = f} i r small sole still =
    let (alone, le) = FleetReach-Reach i r in
    let (a, b, c, d) = status_shown alone (omega arith) still in
    let (lower, upper) = Reach-counts alone (omega arith) in
    let m = FleetReach-IsMetered r i sole in
    let up = m.counts activated in
    let down = m.counts deactivated in
    let gone = m.counts invalidated in
    (a, b, c, m.gauge ∙ d, rw (up, down) lower, rw (up, down, gone) upper)
