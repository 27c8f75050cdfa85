-- ===== src/Tests/Watching.antt =====
-- Runs of one watcher, and instances of the theorems on its operations.
use dynamic_crd_watch.Base.{ℕ, ◌≡◌, ◌≢◌, ◌⊎◌, refl, true, false, none, some, [], ◌∷◌}
use dynamic_crd_watch.Crd.{Crd, is_crd_established, crd_removed}
use dynamic_crd_watch.Watcher.{
  World, result, panicked, ensure, on_crd_change, wait_for_sync_and_requeue, try_get, try_list,
  status, waiting, syncing, pending, crd_not_found,
}
use dynamic_crd_watch.Watcher.Reading.{try_get-contract, try_list-contract, try_get-invalidates}
use dynamic_crd_watch.Watcher.Events.{removal_complete}
use dynamic_crd_watch.Watcher.Recovery.{sync_failure_retries}
use dynamic_crd_watch.Tests.Demo.{
  not_cached, not_found, demo, parent, demo_world, known_world, ready_world, dark, light,
}

abbrev pub established : Crd ℕ
established = record {
  name = "themes.demo.io";
  deletion_timestamp = none;
  spec = 7;
  managed_fields = [];
  annotations = [];
  conditions = record { type = "Established"; status = "True" } ∷ [];
}

abbrev pub deleted : Crd ℕ
deleted = record established { deletion_timestamp = some 1_700_000_000 }

pub established-usable : crd_removed established ≡ false
unfolding crd_removed is_crd_established
established-usable = refl

pub deleted-gone : crd_removed deleted ≡ true
unfolding crd_removed is_crd_established
deleted-gone = refl

abbrev pub started_world : World demo
started_world = record demo_world {
  watcher = record (demo_world.watcher) { started = true; crd_src = true };
}

-- The informer is gone behind the watcher's back.
abbrev lost_world : World demo
lost_world = record ready_world { outside = false }

reads_object : (try_get dark "" ready_world).0 ≡ result true none "dark-setting"
unfolding try_get ensure
reads_object = refl

reads_unknown : (try_get light "" ready_world).0 ≡ result true (some not_found) ""
unfolding try_get ensure
reads_unknown = refl

reads_too_early : (try_get dark "" demo_world).0 ≡ panicked
unfolding try_get ensure
reads_too_early = refl

try_get-contract_example : (try_get dark "" ready_world).0 ≡ result true none "dark-setting"
try_get-contract_example = try_get-contract {rt = demo} dark "" ready_world

try_list-contract_example :
    (try_list "" (record { items = "old" ∷ []; remaining_item_count = some 3 }) lost_world).0
    ≡ result false none (record { items = []; remaining_item_count = none })
try_list-contract_example =
    try_list-contract {rt = demo} "" (record { items = "old" ∷ []; remaining_item_count = some 3 })
      lost_world

try_get-invalidates_example :
    let v = (try_get dark "" lost_world).1 in
    (status v.watcher ≡ record { available = false; reason = crd_not_found })
    × (v.cancel_sync_waiter ≡ none)
    × (v.gauge ≡ false)
    × (v.added ≡ [])
try_get-invalidates_example = try_get-invalidates {rt = demo} dark "" lost_world refl refl refl

removal_complete_example :
    let (requests, v) = on_crd_change deleted ready_world in
    (v.watching ≡ false)
    × (v.active ≡ false)
    × (v.crd_exists ≡ false)
    × (v.generation ≡ 1)
    × (v.cancel_sync_waiter ≡ none)
    × ((ready_world.cancel_sync_waiter ≢ some 0) ⊎ (v.cancelled 0 ≡ true))
    × ((ready_world.watching ≡ false)
        ⊎ ((demo.remove_informer ready_world.outside).0 ≢ none)
        ⊎ (demo.has_informer v.outside ≡ false))
    × (requests ≡ parent ∷ [])
removal_complete_example = removal_complete {rt = demo} deleted ready_world 0 deleted-gone

sync_failure_retries_example :
    let up = (ensure known_world).1 in
    let after = wait_for_sync_and_requeue 0 0 (some not_cached) up in
    let retried = (ensure after).1 in
    (status after.watcher ≡ record { available = false; reason = pending })
    × (after.added ≡ parent ∷ [])
    × (status retried.watcher ≡ record { available = false; reason = syncing })
    × (retried.waiters 1 ≡ waiting 0)
    × (retried.cancel_sync_waiter ≡ some 1)
sync_failure_retries_example =
    sync_failure_retries {rt = demo} known_world not_cached (refl, refl, refl, refl) (λ o. refl)
