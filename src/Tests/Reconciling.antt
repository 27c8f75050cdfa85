-- ===== src/Tests/Reconciling.antt =====
-- Reconciles of one Widget, and instances of the theorems on the controller.
use dynamic_crd_watch.Condition.{condition_true, condition_false}
use dynamic_crd_watch.Base.{◌≡◌, refl, Bool, true, false, none, some, [], str_eq, if◌then◌else◌}
use dynamic_crd_watch.Crd.{is_crd_established, crd_removed}
use dynamic_crd_watch.Controller.Following.{removal-PluginSays, install-PluginSays}
use dynamic_crd_watch.Tests.Watching.{
  established, deleted, established-usable, deleted-gone, started_world,
}
use dynamic_crd_watch.Watcher.{World, on_crd_change, ensure, wait_for_sync_and_requeue}
use dynamic_crd_watch.Widget.{Widget}
use dynamic_crd_watch.Widget.Laws.{PluginSays}
use dynamic_crd_watch.Controller.{
  Api, found, failed, Result, no_result, State, directly, observe, reconcile_plugin, reconcile,
}
use dynamic_crd_watch.Controller.Themes.{theme_error, ThemeReport}
use dynamic_crd_watch.Controller.Outcome.{Concluded, reconcile_reports}
use dynamic_crd_watch.Tests.Demo.{
  DemoError, not_cached, not_found, demo, demo_world, ready_world, parent,
}
use dynamic_crd_watch.Tests.Reports.{demo_meta, status_eq, status_eq_iff}

abbrev is_not_found : DemoError → Bool
is_not_found not_cached = false
is_not_found not_found = true

-- The store holds one Widget.
abbrev pub server : Api
server = record {
  plugins = demo;
  themes = demo;
  new_plugin = "";
  new_theme = "";
  setting = λ o. o;
  color_scheme = λ o. o;
  plugin_not_found = is_not_found;
  theme_not_found = is_not_found;
  Store = Widget;
  Error = DemoError;
  not_found = is_not_found;
  get = λ s req. if str_eq s.name req.name then found s else failed not_found;
  patch_status = λ s widget original. (none, record s { status = widget.status });
  meta = demo_meta;
  deep_equal = status_eq;
  deep_equal_iff = status_eq_iff;
}

abbrev pub widget : Widget
widget = record {
  namespace = "default";
  name = "widget";
  generation = 3;
  spec = record { plugin_ref = "dark"; theme_ref = "light" };
  status = record { observed_generation = 2; conditions = [] };
}

-- The plugins can be read, and the themes' CRD is not there.
abbrev state : State server (directly server)
state = record {
  store = widget;
  plugins = ready_world;
  themes = record demo_world { watcher = record (demo_world.watcher) { started = true } };
}

reconcile_reports_example :
    (widget₁ widget₂ : Widget) × PluginSays demo_meta
      (observe server widget)
      condition_true
      "PluginApplied"
      widget₁
    × ThemeReport server widget₁ state.themes widget₂
    × Concluded server none
        (theme_error server widget₁ state.themes)
        widget
        widget₂
        state
        (reconcile server (directly server) parent state)
reconcile_reports_example = reconcile_reports server parent widget state refl refl refl

abbrev later : Result
later = record { requeue_after = 30 }

abbrev sooner : Result
sooner = record { requeue_after = 10 }

removal-PluginSays_example :
    let v = (on_crd_change deleted ready_world).1 in
    (widget' : Widget) × ((reconcile_plugin server (directly server) widget v).0
      ≡ some (no_result, none, widget'))
    × PluginSays demo_meta widget condition_false "PluginCRDNotAvailable" widget'
removal-PluginSays_example =
    removal-PluginSays server widget refl deleted ready_world deleted-gone refl

-- The watcher after the CRD came, the first reconcile registered the watch, and its sync succeeded.
abbrev installed : World demo
installed =
    wait_for_sync_and_requeue 0 0 none (ensure (on_crd_change established started_world).1).1

install-PluginSays_example :
    (widget' : Widget) × ((reconcile_plugin server (directly server) widget installed).0
      ≡ some (no_result, none, widget'))
    × PluginSays demo_meta widget condition_true "PluginApplied" widget'
unfolding on_crd_change crd_removed is_crd_established ensure wait_for_sync_and_requeue
install-PluginSays_example =
    install-PluginSays server widget refl established started_world installed established-usable
      (refl, refl, refl, refl) refl refl refl refl
