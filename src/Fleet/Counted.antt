-- ===== src/Fleet/Counted.antt =====
-- How the transitions that a watcher counts in the metrics of pkg/dynamicwatch/metrics.go alternate.
use dynamic_crd_watch.Base.{
  ℕ, suc, ◌+◌, ◌^◌, ◌<◌, ◌≤◌, Bool, ◌||◌, inl, inr, ◌==◌, arith, if◌then◌else◌, Bool-cases,
}
use dynamic_crd_watch.Watcher.{
  Runtime, activated, deactivated, invalidated, start, ensure, mark_present, mark_removed,
  tear_down, requeue, handle_cache_invalidated, promote, fail_sync, clean_up, announce, finish,
}
use dynamic_crd_watch.System.{
  System, Step, starts, crd_present, crd_going, tears_down, promotes, gives_up, Reach, fresh, after,
}
use dynamic_crd_watch.System.Invariant.{IsConsistent}
use dynamic_crd_watch.System.Gauge.{is_lagging, IsShown}
use dynamic_crd_watch.System.Safety.{Reach-IsConsistent, Reach-IsShown}
use dynamic_crd_watch.Fleet.Written.{count}

abbrev one_if : Bool → ℕ
one_if b = if b then 1 else 0

-- Every deactivation follows an activation of its own, and every activation but one that still
-- shows has been followed by a deactivation or an invalidation of its own.
record IsAlternating {rt : Runtime} (s : System rt) : Type 0 where
  lower :
      count deactivated s.transitions + one_if (s.active || is_lagging s.crd_handler)
      ≤ count activated s.transitions
  upper :
      count activated s.transitions
      ≤ count deactivated s.transitions + count invalidated s.transitions + one_if s.gauge

Step-IsAlternating :
    {rt : Runtime} {n : ℕ} {s t : System rt}
    → Step s t
    → IsConsistent n s.world
    → IsShown s
    → IsAlternating s
    → IsAlternating t
unfolding start mark_present mark_removed tear_down requeue ensure handle_cache_invalidated promote
    fail_sync clean_up announce finish
Step-IsAlternating (starts e) c h a = ground arith
Step-IsAlternating (crd_present crd src at usable) c h a = ground arith
Step-IsAlternating (crd_going crd src at gone) c h a = ground arith
Step-IsAlternating (tears_down {was_watching} {was_ready} at) c h a = ground arith
Step-IsAlternating {s = s} (promotes i {gen} at) c h a = elim (Bool-cases (s.generation == gen)) [
  | inl same ↦ let syncing = c.pending i (c.current i (ground arith)) in ground arith
  | inr stale ↦ ground arith
]
Step-IsAlternating (gives_up i {gen} {e} at) c h a = ground arith
Step-IsAlternating _ c h a = ground arith

alternates : {rt : Runtime} {n : ℕ} {s : System rt} → Reach n s → n < 2 ^ 64 → IsAlternating s
alternates (fresh a b r o) small = record { lower = omega arith; upper = omega arith }
alternates (after r st) small =
    Step-IsAlternating st (Reach-IsConsistent r (omega arith)) (Reach-IsShown r (omega arith))
      (alternates r (omega arith))

pub Reach-counts :
    {rt : Runtime} {n : ℕ} {s : System rt}
    → Reach n s
    → n < 2 ^ 64
    → (count deactivated s.transitions ≤ count activated s.transitions)
      × (count activated s.transitions
          ≤ suc (count deactivated s.transitions + count invalidated s.transitions))
Reach-counts r small = let a = alternates r small in ground (arith, a.lower, a.upper)
