-- ===== src/System.antt =====
-- The goroutines that share one watcher of pkg/dynamicwatch/watcher.go, in any interleaving: the
-- handler of CRD events, the sync waiters that `Ensure` starts, and any number of readers (the
-- reconciles that call `TryGet` or `TryList`). Each step is one stretch of code between two points
-- where another goroutine can run: a section under the lock, or a call of the cache.
pub mod Invariant
pub mod Steps
pub mod Gauge
pub mod Bounds
pub mod Safety
pub mod Staleness
pub mod Cases
pub mod Runs
pub mod Liveness
pub mod Requeues
pub mod Wakeups
pub mod Refinement
pub mod Race
pub mod Work
pub mod Quiescence
pub mod Rest
pub mod Settling
pub mod Converging
use dynamic_crd_watch.Base.{
  ℕ, suc, String, ◌≡◌, Bool, true, false, Option, none, some, update, if◌then◌else◌,
}
use dynamic_crd_watch.Base.Text.{Text}
use dynamic_crd_watch.Crd.{Crd, crd_removed}
use dynamic_crd_watch.Watcher.{
  Request, Runtime, Watcher, new_watcher, new_world, Waiter, waiting, returned, cleaning,
  announcing, World, start, ensure, mark_present, mark_removed, tear_down, requeue,
  handle_cache_invalidated, fail_sync, clean_up, promote, announce, finish,
}

-- The handler of CRD events takes them one at a time. It is between events, after the locked section
-- for a CRD that goes away, or before the requeue.
pub data CrdHandler : Type 0 where
  listening : CrdHandler
  tearing : (was_watching was_ready : Bool) → CrdHandler
  requeueing : CrdHandler

-- A reader is outside, between `Ensure` and the read, or between a read that failed with
-- `ErrResourceNotCached` and `handleCacheInvalidated`.
pub data Reader : Type 0 where
  away ensured missed : Reader

pub record System (rt : Runtime) : Type 0 where
  pub world : World rt
  pub open world use *
  pub crd_handler : CrdHandler
  pub readers : ℕ → Reader

abbrev pub new_system : (rt : Runtime) → Watcher → rt.Outside → System rt
new_system rt w o = record {
  world = new_world rt w o;
  crd_handler = listening;
  readers = λ _. away;
}

-- Where the CRD handler goes after a usable CRD, and after the tear-down.
abbrev pub after_present : Bool → CrdHandler
after_present already_known = if already_known then listening else requeueing

abbrev pub after_tear_down : Bool → CrdHandler
after_tear_down was_ready = if was_ready then requeueing else listening

abbrev pub after_ensure : Option Bool → Reader
after_ensure (some true) = ensured
after_ensure _ = away

module _ {rt : Runtime} where
  -- The waiter `i` goes on to `x`.
  abbrev pub goes_to : ℕ → Waiter rt.Error → World rt → World rt
  goes_to i x w = record w { waiters = update w.waiters i x }

  -- Where a waiter goes from the locked section: it ends if it is stale.
  abbrev pub after_fail_sync : ℕ → rt.Error → Bool × World rt → World rt
  after_fail_sync i e (stale, w) = if stale then finish i w else goes_to i (cleaning e) w

  abbrev pub after_promote : ℕ → Bool × World rt → World rt
  after_promote i (current, w) = if current then goes_to i announcing w else finish i w

  pub data Step (s : System rt) : System rt → Type 1 where
    starts :
        (crd_start : Option rt.Error) → Step s (record s { world = (start crd_start s.world).1 })
    crd_present :
        {Spec : Type 0} (crd : Crd Spec)
        → s.crd_src ≡ true
        → s.crd_handler ≡ listening
        → crd_removed crd ≡ false
        → Step s (record s {
          world = (mark_present s.world).1;
          crd_handler = after_present (mark_present s.world).0;
        })
    crd_going :
        {Spec : Type 0} (crd : Crd Spec)
        → s.crd_src ≡ true
        → s.crd_handler ≡ listening
        → crd_removed crd ≡ true
        → Step s (record s {
          world = (mark_removed s.world).2;
          crd_handler = tearing (mark_removed s.world).0 (mark_removed s.world).1;
        })
    tears_down :
        {was_watching was_ready : Bool}
        → s.crd_handler ≡ tearing was_watching was_ready
        → Step s (record s {
          world = tear_down was_watching was_ready s.world;
          crd_handler = after_tear_down was_ready;
        })
    requeues :
        s.crd_handler ≡ requeueing
        → Step s (record s { world = requeue s.world; crd_handler = listening })
    ensures :
        (j : ℕ)
        → s.readers j ≡ away
        → s.started ≡ true
        → Step s (record s {
          world = (ensure s.world).1;
          readers = update s.readers j (after_ensure (ensure s.world).0);
        })
    reads :
        (j : ℕ)
        → s.readers j ≡ ensured
        → rt.has_informer s.outside ≡ true
        → Step s (record s { readers = update s.readers j away })
    misses :
        (j : ℕ)
        → s.readers j ≡ ensured
        → rt.has_informer s.outside ≡ false
        → Step s (record s { readers = update s.readers j missed })
    invalidates :
        (j : ℕ)
        → s.readers j ≡ missed
        → Step s (record s {
          world = handle_cache_invalidated s.world;
          readers = update s.readers j away;
        })
    sync_returns :
        (i : ℕ) {gen : ℕ}
        → s.waiters i ≡ waiting gen
        → rt.has_informer s.outside ≡ true
        → Step s (record s { world = goes_to i (returned gen none) s.world })
    sync_fails :
        (i : ℕ) {gen : ℕ} (e : rt.Error)
        → s.waiters i ≡ waiting gen
        → Step s (record s { world = goes_to i (returned gen (some e)) s.world })
    promotes :
        (i : ℕ) {gen : ℕ}
        → s.waiters i ≡ returned gen none
        → Step s (record s { world = after_promote i (promote gen s.world) })
    gives_up :
        (i : ℕ) {gen : ℕ} {e : rt.Error}
        → s.waiters i ≡ returned gen (some e)
        → Step s (record s { world = after_fail_sync i e (fail_sync gen s.world) })
    cleans_up :
        (i : ℕ) {e : rt.Error}
        → s.waiters i ≡ cleaning e
        → Step s (record s { world = finish i (clean_up s.world) })
    announces :
        (i : ℕ)
        → s.waiters i ≡ announcing
        → Step s (record s { world = finish i (announce s.world) })
    -- The cluster and the cache change; nobody but this watcher removes the informer.
    changes :
        (o : rt.Outside)
        → (rt.has_informer s.outside ≡ true → rt.has_informer o ≡ true)
        → Step s (record s { world = record (s.world) { outside = o } })

-- The states after `n` steps from a new watcher.
pub data Reach {rt : Runtime} : ℕ → System rt → Type 1 where
  fresh :
      (crd_name : String) (condition_type : Text) (recorder : Bool) (o : rt.Outside)
      → Reach 0 (new_system rt (new_watcher crd_name condition_type recorder) o)
  after : {n : ℕ} {s t : System rt} → Reach n s → Step s t → Reach (suc n) t
