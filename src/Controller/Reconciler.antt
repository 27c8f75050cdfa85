-- ===== src/Controller/Reconciler.antt =====
-- internal/controller/widget_controller.go: the struct `WidgetReconciler` with `tryGetPlugin` and
-- `tryGetTheme`, and what the two set-ups set in it. The watchers stand at addresses, as in `Handle`; the
-- client and the scheme are those of the record `Api`.
use dynamic_crd_watch.Handle
use dynamic_crd_watch.Watcher
use dynamic_crd_watch.Base.{ℕ, Bool, true, false, Option, none, some, if◌then◌else◌}
use dynamic_crd_watch.Handle.{WatchHandle, Watchers, through}
use dynamic_crd_watch.Watcher.{Request, Tried, panicked}
use dynamic_crd_watch.Controller.Backend.{Api}
use dynamic_crd_watch.Controller.Reconcile.{Reads}

-- The watches are pointers.
pub record WidgetReconciler : Type 0 where
  pub plugin_watch : Option ℕ
  pub theme_watch : Option ℕ
  pub plugin_handle : WatchHandle
  pub theme_handle : WatchHandle
  pub use_registry : Bool

abbrev nil : WatchHandle
nil = record { w = none }

-- The reconciler before a set-up.
abbrev pub new_reconciler : WidgetReconciler
new_reconciler = record {
  plugin_watch = none;
  theme_watch = none;
  plugin_handle = nil;
  theme_handle = nil;
  use_registry = false;
}

-- The fields that `SetupWithManager` sets, to the two watchers that it builds.
unfoldable pub set_watches : ℕ → ℕ → WidgetReconciler → WidgetReconciler
set_watches plugin theme r = record r { plugin_watch = some plugin; theme_watch = some theme }

-- Those that `SetupWithManagerUsingRegistry` sets, to the handles of the two watchers.
unfoldable pub set_handles : ℕ → ℕ → WidgetReconciler → WidgetReconciler
set_handles plugin theme r = record r {
  plugin_handle = record { w = some plugin };
  theme_handle = record { w = some theme };
  use_registry = true;
}

module _ (api : Api) (r : WidgetReconciler) where
  -- A nil pointer to a watcher panics in the method.
  unfoldable pub try_get_plugin :
      Request
      → api.plugins.Object
      → Watchers api.plugins
      → Tried api.plugins.Error api.plugins.Object × Watchers api.plugins
  unfolding Handle.try_get
  try_get_plugin key obj ws =
      if r.use_registry
      then Handle.try_get r.plugin_handle key obj ws
      else through panicked (record { w = r.plugin_watch }) (Watcher.try_get key obj) ws

  unfoldable pub try_get_theme :
      Request
      → api.themes.Object
      → Watchers api.themes
      → Tried api.themes.Error api.themes.Object × Watchers api.themes
  unfolding Handle.try_get
  try_get_theme key obj ws =
      if r.use_registry
      then Handle.try_get r.theme_handle key obj ws
      else through panicked (record { w = r.theme_watch }) (Watcher.try_get key obj) ws

  -- The reads of the reconciler.
  abbrev pub reads_of : Reads api
  reads_of = record {
    Plugins = Watchers api.plugins;
    Themes = Watchers api.themes;
    try_get_plugin = try_get_plugin;
    try_get_theme = try_get_theme;
  }
