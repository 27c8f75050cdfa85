-- ===== src/System/Gauge.antt =====
-- The metric `dynamicwatch_active` of pkg/dynamicwatch/metrics.go against the watcher's state.
use dynamic_crd_watch.Base.{ℕ, ◌≡◌, Bool, true, false, arith}
use dynamic_crd_watch.Watcher.{
  Runtime, start, ensure, mark_present, mark_removed, tear_down, requeue, handle_cache_invalidated,
  fail_sync, clean_up, promote, announce, finish,
}
use dynamic_crd_watch.System.{
  System, CrdHandler, tearing, Step, starts, crd_present, crd_going, tears_down, requeues, promotes,
}
use dynamic_crd_watch.System.Invariant.{IsConsistent}

-- A handler that has taken a ready watch down, and has not set the gauge yet.
abbrev pub is_lagging : CrdHandler → Bool
is_lagging (tearing _ was_ready) = was_ready
is_lagging _ = false

abbrev pub is_tearing : CrdHandler → Bool
is_tearing (tearing _ _) = true
is_tearing _ = false

-- The gauge shows whether the watch is ready, but for a handler that lags; and a CRD whose watch is
-- being taken down does not come back meanwhile.
pub record IsShown {rt : Runtime} (s : System rt) : Type 0 where
  pub lit : s.active ≡ true → s.gauge ≡ true
  pub lit_only : s.gauge ≡ true → s.active ≡ false → is_lagging s.crd_handler ≡ true
  pub torn : is_tearing s.crd_handler ≡ true → s.crd_exists ≡ false

pub Step-IsShown :
    {rt : Runtime} {n : ℕ} {s t : System rt}
    → Step s t
    → IsConsistent n s.world
    → IsShown s
    → IsShown t
unfolding start mark_present mark_removed tear_down requeue ensure handle_cache_invalidated promote
    fail_sync clean_up announce finish
Step-IsShown (starts e) c h = ground arith
Step-IsShown (crd_present crd src at usable) c h = ground arith
Step-IsShown (crd_going crd src at gone) c h = ground arith
Step-IsShown (tears_down {was_watching} {was_ready} at) c h = ground arith
Step-IsShown (requeues at) c h = ground arith
Step-IsShown (promotes i {gen} at) c h = ground arith
Step-IsShown _ c h = ground arith
