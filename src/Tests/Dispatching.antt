-- ===== src/Tests/Dispatching.antt =====
-- A Widget is reconciled by a reconciler that has watches, and by one that has handles.
use dynamic_crd_watch.Base.{◌≡◌}
use dynamic_crd_watch.Controller.{new_reconciler, set_watches, set_handles}
use dynamic_crd_watch.Controller.Dispatch.{by_reconciler, by_watchers, reconcile_dispatched}
use dynamic_crd_watch.Handle.{Watchers}
use dynamic_crd_watch.Tests.Demo.{demo, ready_world, parent}
use dynamic_crd_watch.Tests.Reconciling.{server, widget}

abbrev all_ready : Watchers demo
all_ready i = ready_world

reconcile_dispatched_example :
    (by_reconciler server (set_watches 0 1 new_reconciler) parent widget all_ready all_ready
      ≡ by_watchers server 0 1 parent widget all_ready all_ready)
    × (by_reconciler server (set_handles 0 1 new_reconciler) parent widget all_ready all_ready
        ≡ by_watchers server 0 1 parent widget all_ready all_ready)
reconcile_dispatched_example = reconcile_dispatched server 0 1 parent widget all_ready all_ready
