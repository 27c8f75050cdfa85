-- ===== src/Watcher/Recovery.antt =====
-- The way up of a watcher of pkg/dynamicwatch/watcher.go, through `Ensure` and its sync waiter, and the
-- way back after a failed sync.
use dynamic_crd_watch.Base.{
  ℕ, suc, ◌≡◌, refl, sym, ap, ◌∙◌, Bool, true, false, none, some, ◌++◌, arith, if◌then◌else◌,
}
use dynamic_crd_watch.Crd.{Crd, crd_removed}
use dynamic_crd_watch.Watcher.Interface.{Runtime}
use dynamic_crd_watch.Watcher.State.{World, Watcher, waiting, ready, pending, syncing}
use dynamic_crd_watch.Watcher.Lifecycle.{ensure, on_crd_change, register, wait_for_sync_and_requeue}
use dynamic_crd_watch.Watcher.Status.{status}

-- `Ensure` on a watcher that knows its CRD and has no watch, if the source starts.
ensure_registers :
    {rt : Runtime} (w : World rt)
    → (w.started ≡ true) × (w.crd_exists ≡ true) × (w.watching ≡ false) × (w.active ≡ false)
    → (rt.start_source w.outside).0 ≡ none
    → ensure w ≡ (some false, register (record w { outside = (rt.start_source w.outside).1 }))
unfolding ensure
ensure_registers w h starts = ground arith

-- What registering the watch sets, and what it leaves alone.
record IsRegistered {rt : Runtime} (w v : World rt) : Type 0 where
  started : v.started ≡ w.started
  watching : v.watching ≡ true
  active : v.active ≡ w.active
  crd_exists : v.crd_exists ≡ w.crd_exists
  generation : v.generation ≡ w.generation
  cancels : v.cancel_sync_waiter ≡ some w.next_waiter
  waits : v.waiters w.next_waiter ≡ waiting w.generation
  added : v.added ≡ w.added
  outside : v.outside ≡ w.outside
  next_waiter : v.next_waiter ≡ suc w.next_waiter

register-IsRegistered : {rt : Runtime} (w : World rt) → IsRegistered w (register w)
unfolding register
register-IsRegistered w = ground arith

-- A waiter of the current generation, with nothing in between: after a sync, and after a failure.
record IsPromoted {rt : Runtime} (w v : World rt) : Type 0 where
  started : v.started ≡ w.started
  active : v.active ≡ true
  gauge : v.gauge ≡ true
  added : v.added ≡ w.added ++ rt.requeue_all w.outside

wait-IsPromoted :
    {rt : Runtime} (i gen : ℕ) (w : World rt)
    → w.generation ≡ gen
    → IsPromoted w (wait_for_sync_and_requeue i gen none w)
unfolding wait_for_sync_and_requeue
wait-IsPromoted i gen w current = ground arith

record IsTakenBack {rt : Runtime} (w v : World rt) : Type 0 where
  started : v.started ≡ w.started
  watching : v.watching ≡ false
  active : v.active ≡ w.active
  crd_exists : v.crd_exists ≡ w.crd_exists
  generation : v.generation ≡ w.generation
  next_waiter : v.next_waiter ≡ w.next_waiter
  added : v.added ≡ w.added ++ rt.requeue_all v.outside

wait-IsTakenBack :
    {rt : Runtime} (i gen : ℕ) (e : rt.Error) (w : World rt)
    → w.generation ≡ gen
    → IsTakenBack w (wait_for_sync_and_requeue i gen (some e) w)
unfolding wait_for_sync_and_requeue
wait-IsTakenBack i gen e w current = ground arith

status_ready :
    (w : Watcher)
    → w.started ≡ true
    → w.active ≡ true
    → status w ≡ record { available = true; reason = ready }
unfolding status
status_ready w started active = ground arith

status_registered :
    (w : Watcher) (watching : Bool)
    → w.started ≡ true
    → w.active ≡ false
    → w.crd_exists ≡ true
    → w.watching ≡ watching
    → status w ≡ record { available = false; reason = if watching then syncing else pending }
unfolding status
status_registered w watching started inactive known e = ground arith

ensure_active :
    {rt : Runtime} (w : World rt) → w.started ≡ true → w.active ≡ true → (ensure w).0 ≡ some true
unfolding ensure
ensure_active w started active = ground arith

learns :
    {rt : Runtime} {Spec : Type 0} (crd : Crd Spec) (w : World rt)
    → crd_removed crd ≡ false
    → w.crd_exists ≡ false
    → on_crd_change crd w
      ≡ (rt.requeue_all w.outside, record w { watcher = record (w.watcher) { crd_exists = true } })
unfolding on_crd_change
learns crd w usable unknown = ground arith

-- The way up: a CRD that becomes usable, for a watcher that was started and knows nothing of it,
-- requeues the parents once; the `Ensure` of a reconcile registers the watch, if its source starts; and
-- its sync waiter, if its sync succeeds, makes the watcher ready and requeues the parents again.
pub install_makes_ready :
    {rt : Runtime} {Spec : Type 0} (crd : Crd Spec) (w : World rt)
    → crd_removed crd ≡ false
    → (w.started ≡ true) × (w.crd_exists ≡ false) × (w.watching ≡ false) × (w.active ≡ false)
    → (rt.start_source w.outside).0 ≡ none
    → let (requests, known) = on_crd_change crd w in
      let (ok, up) = ensure known in
      let final = wait_for_sync_and_requeue w.next_waiter w.generation none up in
      (requests ≡ rt.requeue_all w.outside)
      × (ok ≡ some false)
      × (up.waiters w.next_waiter ≡ waiting w.generation)
      × (status final.watcher ≡ record { available = true; reason = ready })
      × ((ensure final).0 ≡ some true)
      × (final.gauge ≡ true)
      × (final.added ≡ w.added ++ rt.requeue_all up.outside)
install_makes_ready {rt} crd w usable (started, unknown, idle, inactive) starts =
    rw (learns crd w usable unknown, ensure_registers known (started, refl, idle, inactive) starts)
      (
        refl,
        refl,
        up.waits,
        status_ready final.watcher (up_started ∙ started') active,
        ensure_active final (up_started ∙ started') active,
        gauge,
        added ∙ ap (λ l. l ++ rt.requeue_all (register tried).outside) up.added,
      )
  where
    known : World rt
    known = record w { watcher = record (w.watcher) { crd_exists = true } }

    tried : World rt
    tried = record known { outside = (rt.start_source w.outside).1 }

    final : World rt
    final = wait_for_sync_and_requeue w.next_waiter w.generation none (register tried)

    up : IsRegistered tried (register tried)
    up = register-IsRegistered tried

    started' : (register tried).started ≡ true
    started' = up.started ∙ started

    open (wait-IsPromoted w.next_waiter w.generation (register tried) up.generation) use {
      started as up_started, active, gauge, added,
    }

-- The retry: for a watcher that was started, knows its CRD and has no watch, whose source always starts,
-- `Ensure` starts a waiter; if the sync of that fails, the watch is taken back, the parents are
-- requeued, and the next `Ensure` registers the watch again with a waiter of its own.
pub sync_failure_retries :
    {rt : Runtime} (w : World rt) (e : rt.Error)
    → (w.started ≡ true) × (w.crd_exists ≡ true) × (w.watching ≡ false) × (w.active ≡ false)
    → ((o : rt.Outside) → (rt.start_source o).0 ≡ none)
    → let up = (ensure w).1 in
      let failed = wait_for_sync_and_requeue w.next_waiter w.generation (some e) up in
      let retried = (ensure failed).1 in
      (status failed.watcher ≡ record { available = false; reason = pending })
      × (failed.added ≡ w.added ++ rt.requeue_all failed.outside)
      × (status retried.watcher ≡ record { available = false; reason = syncing })
      × (retried.waiters (suc w.next_waiter) ≡ waiting w.generation)
      × (retried.cancel_sync_waiter ≡ some (suc w.next_waiter))
sync_failure_retries {rt} w e h starts =
    rw (ensure_registers w h (starts w.outside), ensure_registers failed again (starts _))
      (
        status_registered failed.watcher false (again.0) (again.3) (again.1) (again.2),
        added ∙ ap (λ l. l ++ rt.requeue_all failed.outside) up.added,
        status_registered (register retry).watcher true (more.started ∙ again.0)
            (more.active ∙ again.3) (more.crd_exists ∙ again.1) more.watching,
        ap (register retry).waiters (sym (next_waiter ∙ up.next_waiter))
            ∙ more.waits
            ∙ ap waiting (generation ∙ up.generation),
        more.cancels ∙ ap some (next_waiter ∙ up.next_waiter),
      )
  where
    tried : World rt
    tried = record w { outside = (rt.start_source w.outside).1 }

    failed : World rt
    failed = wait_for_sync_and_requeue w.next_waiter w.generation (some e) (register tried)

    retry : World rt
    retry = record failed { outside = (rt.start_source failed.outside).1 }

    up : IsRegistered tried (register tried)
    up = register-IsRegistered tried

    more : IsRegistered retry (register retry)
    more = register-IsRegistered retry

    open (wait-IsTakenBack w.next_waiter w.generation e (register tried) up.generation) use {
      started, active, crd_exists, watching, generation, next_waiter, added,
    }

    again :
        (failed.started ≡ true)
        × (failed.crd_exists ≡ true)
        × (failed.watching ≡ false)
        × (failed.active ≡ false)
    again = (
      started ∙ up.started ∙ h.0,
      crd_exists ∙ up.crd_exists ∙ h.1,
      watching,
      active ∙ up.active ∙ h.3,
    )
