-- ===== src/Watcher/Status.antt =====
-- pkg/dynamicwatch/watcher.go: `Available` and `Status`.
use dynamic_crd_watch.Base.{Bool, true, false, not, if◌then◌else◌}
use dynamic_crd_watch.Watcher.State.{
  Watcher, WatcherStatus, ready, not_started, crd_not_found, syncing, pending,
}

unfoldable pub available : Watcher → Bool
available w = w.active

unfoldable pub status : Watcher → WatcherStatus
status w =
    if not w.started
    then record { available = false; reason = not_started }
    else if w.active
    then record { available = true; reason = ready }
    else if not w.crd_exists
    then record { available = false; reason = crd_not_found }
    else if w.watching
    then record { available = false; reason = syncing }
    else record { available = false; reason = pending }
