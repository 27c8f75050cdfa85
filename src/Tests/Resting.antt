-- ===== src/Tests/Resting.antt =====
-- The watcher of Running at rest and in between.
use dynamic_crd_watch.Base.{ℕ, ◌≤◌, ◌≡◌, ◌≢◌, ◌⊎◌, refl, true, false, none, some, arith, ℕ_discrete}
use dynamic_crd_watch.Watcher.{start, mark_present, requeue, ensure, promote, announce, finish}
use dynamic_crd_watch.System.Invariant.{gen_of}
use dynamic_crd_watch.System.Safety.{watch_state}
use dynamic_crd_watch.System.Staleness.{here, next, Run}
use dynamic_crd_watch.System.Quiescence.{AreFew, AreDone}
use dynamic_crd_watch.System.{System, sync_returns, promotes, announces, ensures}
use dynamic_crd_watch.Tests.Demo.{demo, not_cached}
use dynamic_crd_watch.System.Requeues.{Told}
use dynamic_crd_watch.System.Settling.{registered_settles}
use dynamic_crd_watch.Tests.Running.{promoted, queued, Reach-queued, registered, Reach-registered}
use dynamic_crd_watch.System.Converging.{IsPromising, favourable_ready}
use dynamic_crd_watch.System.Rest.{CanRest, comes_to_rest}

few : AreFew 1 registered
unfolding start mark_present requeue ensure
few j le = ground arith

-- One sync waiter and one reader.
comes_to_rest_example : (0 ≤ 7) × CanRest 1 registered
unfolding start mark_present requeue ensure
comes_to_rest_example = comes_to_rest 1 not_cached Reach-registered few (omega arith) here refl

watch_state_example :
    ((registered.watching ≡ false) × (registered.active ≡ false))
    ⊎ ((registered.watching ≡ true)
        × (registered.started ≡ true)
        × (registered.crd_exists ≡ true)
        × (((registered.active ≡ true)
              × (registered.cancel_sync_waiter ≡ none)
              × ((i : ℕ) → gen_of (registered.waiters i) ≢ some registered.generation))
            ⊎ ((registered.active ≡ false)
                × (i : ℕ) × (gen_of (registered.waiters i) ≡ some registered.generation)
                × (registered.cancel_sync_waiter ≡ some i)
                × ((j : ℕ) → gen_of (registered.waiters j) ≡ some registered.generation → j ≡ i))))
watch_state_example = watch_state Reach-registered (omega arith)

-- The sync succeeds, the watcher is promoted, and its parents are requeued.
abbrev announced : System demo
announced = record promoted { world = finish 0 (announce promoted.world) }

activation : Run registered 3 announced
unfolding start mark_present requeue ensure promote announce ℕ_discrete
activation = next (next (next here (sync_returns 0 refl refl)) (promotes 0 refl)) (announces 0 refl)

AreDone-announced : AreDone announced
unfolding start mark_present requeue ensure promote announce finish ℕ_discrete
AreDone-announced i lt = ground arith

registered_settles_example : (announced.active ≡ true) ⊎ Told activation
unfolding start mark_present requeue ensure promote announce finish activation ℕ_discrete
registered_settles_example =
    registered_settles Reach-registered refl activation (omega arith) refl refl AreDone-announced

-- The same from before the call of `Ensure`.
ascent : Run queued 4 announced
unfolding start mark_present requeue ensure promote announce ℕ_discrete
ascent =
    next
      (next (next (next here (ensures 0 refl refl)) (sync_returns 0 refl refl)) (promotes 0 refl))
      (announces 0 refl)

IsPromising-queued : IsPromising queued
unfolding start mark_present requeue
IsPromising-queued = record { started = refl; known = refl; hopeful = λ i. refl }

favourable_ready_example : (announced.active ≡ true) × (announced.gauge ≡ true)
unfolding start mark_present requeue ensure promote announce finish ascent ℕ_discrete
favourable_ready_example =
    favourable_ready (λ o. refl) Reach-queued IsPromising-queued ascent (omega arith) refl refl
      AreDone-announced refl
