-- ===== src/Tests/Sharing.antt =====
-- Two copies of a handle, one on another watcher and a nil one.
use dynamic_crd_watch.Handle
use dynamic_crd_watch.Base.{◌≡◌, refl, none, some, [], ◌∷◌, ℕ_discrete, false, List, true}
use dynamic_crd_watch.Handle.{WatchHandle, Watchers}
use dynamic_crd_watch.Handle.Sharing.{
  Call, ensures, asks_available, is_available, ensured, at_watcher, run, run_directly,
  run-at_watcher,
}
use dynamic_crd_watch.Watcher.{ensure, available}
use dynamic_crd_watch.Tests.Demo.{demo, known_world}

abbrev at_zero : WatchHandle
at_zero = record { w = some 0 }

abbrev at_one : WatchHandle
at_one = record { w = some 1 }

abbrev unset : WatchHandle
unset = record { w = none }

abbrev watchers : Watchers demo
watchers i = known_world

abbrev calls : List (WatchHandle × Call demo)
calls =
    (at_zero, ensures)
    ∷ (at_one, asks_available)
    ∷ (unset, ensures)
    ∷ (at_zero, asks_available)
    ∷ (at_one, ensures)
    ∷ []

-- The first handle registers the watch of its watcher, which its copy then finds registered.
shares :
    (at_watcher 0 (run calls watchers).0 ≡ ensured (some false) ∷ is_available (some false) ∷ [])
    × ((run calls watchers).1 0).watching ≡ true
    × ((run calls watchers).1 2).watching ≡ false
unfolding Handle.ensure Handle.available ensure available ℕ_discrete
shares = (refl, refl, refl)

run-at_watcher_example :
    (at_watcher 0 (run calls watchers).0, (run calls watchers).1 0)
    ≡ run_directly (ensures ∷ asks_available ∷ []) known_world
run-at_watcher_example = run-at_watcher 0 calls watchers
