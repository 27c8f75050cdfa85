-- ===== src/System/Liveness.antt =====
-- A watcher of pkg/dynamicwatch/watcher.go can always become active again.
use dynamic_crd_watch.System.{System}
