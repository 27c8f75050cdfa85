-- ===== src/System/Refinement.antt =====
-- The lifecycle diagram of ARCHITECTURE.md, which the watcher of pkg/dynamicwatch/watcher.go refines.
use dynamic_crd_watch.Base.{
  ℕ, ◌^◌, ◌<◌, ◌≡◌, true, false, none, arith, if◌then◌else◌, Bool-cases, ◌==◌, inl, inr,
}
use dynamic_crd_watch.Crd.{Crd, crd_removed}
use dynamic_crd_watch.Watcher.{
  Runtime, returned, announcing, next_generation, promote, fail_sync, start, ensure, mark_present,
  mark_removed, tear_down, requeue, handle_cache_invalidated, clean_up, announce, finish,
}
use dynamic_crd_watch.System.{
  System, listening, tearing, away, missed, Step, starts, crd_going, invalidates, promotes, Reach,
}
use dynamic_crd_watch.System.Safety.{Reach-IsConsistent}

-- The two states that a user sees.
pub data View : Type 0 where
  unavailable ready : View

abbrev pub view : {rt : Runtime} → System rt → View
view s = if s.active then ready else unavailable

-- The edges of the diagram between what the user sees in the states `s` and `t`, with what the step from
-- `s` to `t` does when the system takes one.
pub data Lifecycle {rt : Runtime} (s t : System rt) (before after : View) : Type 1 where
  stays : before ≡ after → Lifecycle s t before after
  syncs :
      (i : ℕ)
      → before ≡ unavailable
      → after ≡ ready
      → s.waiters i ≡ returned s.generation none
      → s.crd_exists ≡ true
      → s.watching ≡ true
      → t.waiters i ≡ announcing
      → Lifecycle s t before after
  removed :
      {Spec : Type 0} (crd : Crd Spec)
      → crd_removed crd ≡ true
      → after ≡ unavailable
      → s.crd_src ≡ true
      → s.crd_handler ≡ listening
      → t.crd_handler ≡ tearing s.watching s.active
      → t.crd_exists ≡ false
      → t.generation ≡ next_generation s.generation
      → Lifecycle s t before after
  found_missing :
      (j : ℕ)
      → after ≡ unavailable
      → s.readers j ≡ missed
      → t.readers j ≡ away
      → t.crd_exists ≡ false
      → t.generation ≡ next_generation s.generation
      → Lifecycle s t before after

-- Every step from a state that is reached in fewer than 2 ^ 64 steps is a step of the lifecycle
-- diagram, or leaves what the user sees alone: the watcher becomes ready only by a sync waiter of
-- the current generation whose sync succeeded, while the CRD is known and the watch registered, and
-- becomes unavailable only where the listening CRD handler takes an event of a CRD that goes away,
-- after which it is in the tear-down, or where a read that found the informer missing invalidates
-- the watch; both forget the CRD and begin a new generation.
pub Step-Lifecycle :
    {rt : Runtime} {n : ℕ} {s t : System rt}
    → Reach n s
    → n < 2 ^ 64
    → Step s t
    → Lifecycle s t (view s) (view t)
unfolding start mark_present mark_removed tear_down requeue ensure handle_cache_invalidated promote
    fail_sync clean_up announce finish
Step-Lifecycle r small (starts e) = stays (ground arith)
Step-Lifecycle r small (crd_going crd src at gone) =
    removed crd gone (ground arith) src at (ground arith) (ground arith) (ground arith)
Step-Lifecycle r small (invalidates j at) =
    found_missing j (ground arith) at (ground arith) (ground arith) (ground arith)
Step-Lifecycle {s} r small (promotes i {gen} at) = elim (Bool-cases (s.generation == gen)) [
  | inl same ↦
      let c = Reach-IsConsistent r small in
      syncs i (ground (arith, c.current i, c.pending i)) (ground arith) (ground arith)
        (ground (arith, c.current i, c.pending i, c.registered))
        (ground (arith, c.current i, c.pending i)) (ground arith)
  | inr stale ↦ stays (ground arith)
]
Step-Lifecycle r small _ = stays (ground arith)
