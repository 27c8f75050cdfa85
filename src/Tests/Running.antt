-- ===== src/Tests/Running.antt =====
-- A run of a watcher with its goroutines, and instances of the theorems on what is reached.
use dynamic_crd_watch.Base.{
  ◌%◌, ◌^◌, ◌≤◌, ◌<◌, ◌≡◌, ◌⊎◌, inl, refl, true, false, none, some, arith, ℕ_discrete, codes,
  update,
}
use dynamic_crd_watch.Crd.{is_crd_established, crd_removed}
use dynamic_crd_watch.Watcher.{
  new_watcher, returned, start, mark_present, mark_removed, requeue, ensure, promote, fail_sync,
  available,
}
use dynamic_crd_watch.System.{
  System, new_system, listening, tearing, after_present, after_ensure, after_promote,
  after_fail_sync, goes_to, Step, starts, crd_present, crd_going, requeues, ensures, sync_returns,
  sync_fails, promotes, gives_up, Reach, fresh, after,
}
use dynamic_crd_watch.System.Staleness.{Run, here, next, never_promoted}
use dynamic_crd_watch.System.Wakeups.{Owes, change_requeues}
use dynamic_crd_watch.System.Requeues.{Told}
use dynamic_crd_watch.System.Refinement.{Lifecycle, unavailable, Step-Lifecycle}
use dynamic_crd_watch.System.Bounds.{take_downs, generation_counts}
use dynamic_crd_watch.System.Race.{active_without_informer}
use dynamic_crd_watch.Tests.Demo.{not_cached, demo}
use dynamic_crd_watch.Tests.Watching.{established, deleted}

abbrev created : System demo
created = new_system demo (new_watcher "themes.demo.io" (codes "ThemeAvailable") true) false

abbrev started : System demo
started = record created { world = (start none created.world).1 }

abbrev told : System demo
told = record started {
  world = (mark_present started.world).1;
  crd_handler = after_present (mark_present started.world).0;
}

abbrev pub queued : System demo
queued = record told { world = requeue told.world; crd_handler = listening }

abbrev pub registered : System demo
registered = record queued {
  world = (ensure queued.world).1;
  readers = update queued.readers 0 (after_ensure (ensure queued.world).0);
}

abbrev synced : System demo
synced = record registered { world = goes_to 0 (returned 0 none) registered.world }

abbrev pub promoted : System demo
promoted = record synced { world = after_promote 0 (promote 0 synced.world) }

-- The other way: the CRD is deleted while the watch syncs.
abbrev unplugged : System demo
unplugged = record registered {
  world = (mark_removed registered.world).2;
  crd_handler = tearing (mark_removed registered.world).0 (mark_removed registered.world).1;
}

-- And: the sync fails.
abbrev timed_out : System demo
timed_out = record registered { world = goes_to 0 (returned 0 (some not_cached)) registered.world }

abbrev pub given_up : System demo
given_up = record timed_out { world = after_fail_sync 0 not_cached (fail_sync 0 timed_out.world) }

pub Reach-queued : Reach 3 queued
unfolding start mark_present requeue crd_removed is_crd_established
Reach-queued =
    after
      (after (after (fresh "themes.demo.io" (codes "ThemeAvailable") true false) (starts none))
        (crd_present established refl refl refl))
      (requeues refl)

pub Reach-registered : Reach 4 registered
unfolding start mark_present requeue ensure
Reach-registered = after Reach-queued (ensures 0 refl refl)

Reach-synced : Reach 5 synced
unfolding start mark_present requeue ensure ℕ_discrete
Reach-synced = after Reach-registered (sync_returns 0 refl refl)

pub Reach-promoted : Reach 6 promoted
unfolding start mark_present requeue ensure ℕ_discrete
Reach-promoted = after Reach-synced (promotes 0 refl)

goes_away : Step registered unplugged
unfolding start mark_present requeue ensure crd_removed
goes_away = crd_going deleted refl refl refl

Reach-given_up : Reach 6 given_up
unfolding start mark_present requeue ensure fail_sync ℕ_discrete
Reach-given_up = after (after Reach-registered (sync_fails 0 not_cached refl)) (gives_up 0 refl)

never_promoted_example :
    (promote 0 unplugged.world ≡ (false, unplugged.world))
    × (fail_sync 0 unplugged.world ≡ (true, unplugged.world))
unfolding start mark_present mark_removed requeue ensure crd_removed ℕ_discrete goes_away
never_promoted_example = never_promoted 0 0 Reach-registered refl goes_away tt here (omega arith)

Step-Lifecycle_example : Lifecycle registered unplugged unavailable unavailable
unfolding start mark_present mark_removed requeue ensure
Step-Lifecycle_example = Step-Lifecycle Reach-registered (omega arith) goes_away

active_without_informer_example :
    (t : System demo) × Run given_up 5 t × (t.active ≡ true) × (demo.has_informer t.outside ≡ false)
unfolding start mark_present requeue ensure fail_sync ℕ_discrete
active_without_informer_example =
    active_without_informer 0 1 not_cached true Reach-given_up (omega arith) refl refl
      (refl, refl, refl) refl refl refl

generation_counts_example :
    (unplugged.generation ≡ take_downs (after Reach-registered goes_away) % 2 ^ 64)
    × (unplugged.generation < 2 ^ 64)
    × (take_downs (after Reach-registered goes_away) ≤ 5)
generation_counts_example = generation_counts (after Reach-registered goes_away)

promotion : Run registered 2 promoted
unfolding start mark_present requeue ensure ℕ_discrete
promotion = next (next here (sync_returns 0 refl refl)) (promotes 0 refl)

change_requeues_example : Told promotion ⊎ Owes promoted
unfolding start mark_present requeue ensure promote promotion available ℕ_discrete
change_requeues_example =
    change_requeues Reach-registered promotion (omega arith) refl (inl (λ e. ground arith))
