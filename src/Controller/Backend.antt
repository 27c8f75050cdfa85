-- ===== src/Controller/Backend.antt =====
-- What internal/controller/widget_controller.go takes from the libraries: the client of the API server,
-- and the two watchers with their caches.
use dynamic_crd_watch.Base.{String, ◌≡◌, ◌↔◌, Bool, true, Option}
use dynamic_crd_watch.Watcher.{Request, Runtime}
use dynamic_crd_watch.Widget.{Meta, Widget, WidgetStatus}

pub data Lookup (Error A : Type 0) : Type 0 where
  found : A → Lookup Error A
  failed : Error → Lookup Error A

-- `Store` is the API server. `not_found` tells the errors that `client.IgnoreNotFound` drops, and
-- `deep_equal` is `equality.Semantic.DeepEqual` on statuses, where nil and empty lists are one.
pub record Api : Type 1 where
  pub plugins : Runtime
  pub themes : Runtime
  pub new_plugin : plugins.Object
  pub new_theme : themes.Object
  pub setting : plugins.Object → String
  pub color_scheme : themes.Object → String
  pub plugin_not_found : plugins.Error → Bool
  pub theme_not_found : themes.Error → Bool
  pub Store : Type 0
  pub Error : Type 0
  pub not_found : Error → Bool
  pub get : Store → Request → Lookup Error Widget
  pub patch_status : Store → (widget : Widget) → (original : Widget) → Option Error × Store
  pub meta : Meta
  pub deep_equal : WidgetStatus → WidgetStatus → Bool
  pub deep_equal_iff : (a b : WidgetStatus) → (deep_equal a b ≡ true) ↔ (a ≡ b)
