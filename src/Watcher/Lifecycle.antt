-- ===== src/Watcher/Lifecycle.antt =====
-- pkg/dynamicwatch/watcher.go: `Start`, `Ensure`, `onCRDChange`, `handleCacheInvalidated` and
-- `waitForSyncAndRequeue`. A method that takes the lock in the middle is the composition of its parts,
-- so that the parts can be interleaved. Log lines are left out.
use dynamic_crd_watch.Base.{
  ℕ, suc, Bool, true, false, not, ◌||◌, Option, none, some, List, [], ◌∷◌, ◌++◌, ◌==◌,
  if◌then◌else◌, update,
}
use dynamic_crd_watch.Crd.{Crd, crd_removed}
use dynamic_crd_watch.Watcher.Interface.{Request, Runtime}
use dynamic_crd_watch.Watcher.State.{
  next_generation, Waiter, waiting, Event, watch_activated, watch_deactivated, watch_sync_failed,
  activated, deactivated, invalidated, sync_failed, World,
}

-- The errors of `Start` and `WaitForSync`.
pub data StartError (Error : Type 0) : Type 0 where
  called_twice : StartError Error
  before_start : StartError Error
  source : Error → StartError Error

module _ {rt : Runtime} where
  -- `if w.cancelSyncWaiter != nil { w.cancelSyncWaiter(); w.cancelSyncWaiter = nil }`
  unfoldable pub cancel_waiter : World rt → World rt
  cancel_waiter w = elim w.cancel_sync_waiter [
    | none ↦ w
    | some i ↦ record w {
      watcher = record (w.watcher) { cancel_sync_waiter = none };
      cancelled = update w.cancelled i true;
    }
  ]

  -- `crd_start` is what `w.crdSrc.Start` returns, for a source over the CRD cache.
  unfoldable pub start : Option rt.Error → World rt → Option (StartError rt.Error) × World rt
  start crd_start w =
      let set = record w { watcher = record (w.watcher) { crd_src = true } } in
      let run = record w { watcher = record (w.watcher) { crd_src = true; started = true } } in
      if w.started
      then (some called_twice, w)
      else elim crd_start [ none ↦ (none, run) | some e ↦ (some (source e), set) ]

  -- `crd_sync` is what the wait for the CRD source returns.
  unfoldable pub wait_for_sync : Option rt.Error → World rt → Option (StartError rt.Error)
  wait_for_sync crd_sync w =
      if w.crd_src
      then elim crd_sync [ none ↦ none | some e ↦ some (source e) ]
      else some before_start

  -- The branch of `Ensure` that registers the watch, once its source has started.
  unfoldable pub register : World rt → World rt
  unfolding cancel_waiter
  register w =
      let c = cancel_waiter w in
      record c {
        watcher = record (c.watcher) { watching = true; cancel_sync_waiter = some w.next_waiter };
        waiters = update w.waiters w.next_waiter (waiting w.generation);
        next_waiter = suc w.next_waiter;
      }

  -- `none` is the panic of a call before `Start`.
  unfoldable pub ensure : World rt → Option Bool × World rt
  unfolding register
  ensure w =
      let (failure, outside) = rt.start_source w.outside in
      let tried = record w { outside = outside } in
      if not w.started
      then (none, w)
      else if w.active
      then (some true, w)
      else if not w.crd_exists || w.watching
      then (some false, w)
      else elim failure [ none ↦ (some false, register tried) | some _ ↦ (some false, tried) ]

  unfoldable pub handle_cache_invalidated : World rt → World rt
  unfolding cancel_waiter
  handle_cache_invalidated w =
      let c = cancel_waiter w in
      record c {
        watcher = record (c.watcher) {
          watching = false;
          active = false;
          crd_exists = false;
          generation = next_generation w.generation;
        };
        gauge = false;
        transitions = invalidated ∷ w.transitions;
      }

  unfoldable pub record_event : Event → World rt → World rt
  record_event e w = if w.recorder then record w { recorded = e ∷ w.recorded } else w

  -- `onCRDChange` for a CRD that goes away, under the lock: what was watched, and what was ready.
  unfoldable pub mark_removed : World rt → Bool × Bool × World rt
  unfolding cancel_waiter
  mark_removed w =
      let c = cancel_waiter w in
      (
        w.watching,
        w.active,
        record c {
          watcher = record (c.watcher) {
            watching = false;
            active = false;
            crd_exists = false;
            generation = next_generation w.generation;
          };
        },
      )

  -- The same after the lock, up to the requeue.
  unfoldable pub tear_down : Bool → Bool → World rt → World rt
  unfolding record_event
  tear_down was_watching was_ready w =
      let v =
        if was_watching
        then record_event watch_deactivated
            (record w { outside = (rt.remove_informer w.outside).1 })
        else w in
      if was_ready then record v { gauge = false; transitions = deactivated ∷ v.transitions } else v

  -- `onCRDChange` for a usable CRD, under the lock: whether it was known.
  unfoldable pub mark_present : World rt → Bool × World rt
  mark_present w = (w.crd_exists, record w { watcher = record (w.watcher) { crd_exists = true } })

  unfoldable pub on_crd_change : {Spec : Type 0} → Crd Spec → World rt → List Request × World rt
  unfolding mark_removed tear_down mark_present
  on_crd_change crd w =
      let (was_watching, was_ready, v) = mark_removed w in
      let torn = tear_down was_watching was_ready v in
      let (already_known, known) = mark_present w in
      if crd_removed crd
      then (if was_ready then rt.requeue_all torn.outside else [], torn)
      else (if already_known then [] else rt.requeue_all known.outside, known)

  -- `for _, req := range w.requeueAll(w.ctx) { w.queue.Add(req) }`
  unfoldable pub requeue : World rt → World rt
  requeue w = record w { added = w.added ++ rt.requeue_all w.outside }

  -- `waitForSyncAndRequeue` under the lock after a failed sync: whether the waiter is stale.
  unfoldable pub fail_sync : ℕ → World rt → Bool × World rt
  fail_sync gen w =
      if w.generation == gen
      then (
        false,
        record w {
          watcher = record (w.watcher) { watching = false; cancel_sync_waiter = none };
          transitions = sync_failed ∷ w.transitions;
        },
      )
      else (true, w)

  -- The same after the lock, for a waiter that is not stale.
  unfoldable pub clean_up : World rt → World rt
  unfolding record_event requeue
  clean_up w =
      requeue
        (record_event watch_sync_failed (record w { outside = (rt.remove_informer w.outside).1 }))

  -- `waitForSyncAndRequeue` under the lock after a sync: whether the waiter is current.
  unfoldable pub promote : ℕ → World rt → Bool × World rt
  promote gen w =
      if w.generation == gen
      then (
        true,
        record w {
          watcher = record (w.watcher) { active = true; cancel_sync_waiter = none };
          gauge = true;
          transitions = activated ∷ w.transitions;
        },
      )
      else (false, w)

  -- The same after the lock.
  unfoldable pub announce : World rt → World rt
  unfolding record_event requeue
  announce w = requeue (record_event watch_activated w)

  -- The end of waiter `i`, with its deferred `syncCancel`.
  unfoldable pub finish : ℕ → World rt → World rt
  finish i w = record w {
    waiters = update w.waiters i Waiter.done;
    cancelled = update w.cancelled i true;
  }

  -- The goroutine `i` with nothing in between; `sync_err` is what the wait for the source returns.
  unfoldable pub wait_for_sync_and_requeue : ℕ → ℕ → Option rt.Error → World rt → World rt
  unfolding fail_sync clean_up promote announce finish
  wait_for_sync_and_requeue i gen none w =
      let (current, v) = promote gen w in finish i (if current then announce v else v)
  wait_for_sync_and_requeue i gen (some e) w =
      let (stale, v) = fail_sync gen w in finish i (if stale then v else clean_up v)
