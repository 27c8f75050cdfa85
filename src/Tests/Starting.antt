-- ===== src/Tests/Starting.antt =====
-- `Start` is called four times on a new watcher.
use dynamic_crd_watch.Base.{◌≡◌, refl, true, Option, none, some, List, [], ◌∷◌}
use dynamic_crd_watch.Watcher.{called_twice, source, wait_for_sync}
use dynamic_crd_watch.Watcher.Starting.{start_all, starts_once}
use dynamic_crd_watch.Tests.Demo.{DemoError, not_cached, demo_world}

-- The source fails, succeeds, and would fail and succeed again.
abbrev calls : List (Option DemoError)
calls = some not_cached ∷ none ∷ some not_cached ∷ none ∷ []

starts_once_example :
    let (results, v) = start_all calls demo_world in
    (results ≡ some (source not_cached) ∷ none ∷ some called_twice ∷ some called_twice ∷ [])
    × (v.started ≡ true)
    × (wait_for_sync none v ≡ none)
starts_once_example = starts_once demo_world refl refl calls none
