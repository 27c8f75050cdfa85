-- ===== src/Controller/Mapping.antt =====
-- internal/controller/widget_controller.go: the field indexes of Widgets, and the maps from an event on
-- a PluginConfig, a Theme or a CRD to the Widgets to reconcile.
use dynamic_crd_watch.Base.{String, ◌≡◌, ◌↔◌, ◌⊎◌, List, [], ◌∷◌, map, str_eq, if◌then◌else◌}
use dynamic_crd_watch.Watcher.{Request}
use dynamic_crd_watch.Widget.{Widget}
use dynamic_crd_watch.Controller.Backend.{Lookup, found, failed}

abbrev pub plugin_ref_field : String
plugin_ref_field = "spec.pluginRef"

abbrev pub theme_ref_field : String
theme_ref_field = "spec.themeRef"

abbrev pub has_plugin_ref_field : String
has_plugin_ref_field = "has-pluginRef"

abbrev pub has_theme_ref_field : String
has_theme_ref_field = "has-themeRef"

-- The functions given to `IndexField`, which only gets Widgets.
unfoldable pub plugin_ref_values : Widget → List String
plugin_ref_values w = if str_eq w.spec.plugin_ref "" then [] else w.spec.plugin_ref ∷ []

unfoldable pub theme_ref_values : Widget → List String
theme_ref_values w = if str_eq w.spec.theme_ref "" then [] else w.spec.theme_ref ∷ []

unfoldable pub has_plugin_ref_values : Widget → List String
has_plugin_ref_values w = if str_eq w.spec.plugin_ref "" then [] else "true" ∷ []

unfoldable pub has_theme_ref_values : Widget → List String
has_theme_ref_values w = if str_eq w.spec.theme_ref "" then [] else "true" ∷ []

-- The four registrations of `setupFieldIndexes`.
abbrev pub field_indexes : List (String × (Widget → List String))
field_indexes =
    (plugin_ref_field, plugin_ref_values)
    ∷ (theme_ref_field, theme_ref_values)
    ∷ (has_plugin_ref_field, has_plugin_ref_values)
    ∷ (has_theme_ref_field, has_theme_ref_values)
    ∷ []

abbrev pub Among : {A : Type 0} → A → List A → Type 0
Among a [] = ⊥
Among a (b ∷ l) = (a ≡ b) ⊎ Among a l

-- The client's cached lists: `list` is `List` with `MatchingFields`, which the cache answers, where it
-- does not fail, with the Widgets it holds that the field's registered index gives that value.
pub record Lister : Type 1 where
  pub Cached : Type 0
  pub Error : Type 0
  pub widgets : Cached → List Widget
  pub list : Cached → (field value : String) → Lookup Error (List Widget)
  pub matching :
      (c : Cached) (field : String) (values : Widget → List String)
      → Among (field, values) field_indexes
      → (value : String) (ws : List Widget) → list c field value ≡ found ws
      → (w : Widget) → Among w ws ↔ (Among w (widgets c) × Among value (values w))

-- `client.ObjectKeyFromObject`
abbrev pub key_of : Widget → Request
key_of w = record { namespace = w.namespace; name = w.name }

module _ (lister : Lister) where
  -- The end of each of the four maps.
  unfoldable pub to_requests : Lookup lister.Error (List Widget) → List Request
  to_requests (failed e) = []
  to_requests (found ws) = map key_of ws

  -- `name` is `obj.GetName()`.
  unfoldable pub plugin_config_to_widgets : String → lister.Cached → List Request
  unfolding to_requests
  plugin_config_to_widgets name c = to_requests (lister.list c plugin_ref_field name)

  unfoldable pub all_widgets_with_plugin_ref : lister.Cached → List Request
  unfolding to_requests
  all_widgets_with_plugin_ref c = to_requests (lister.list c has_plugin_ref_field "true")

  unfoldable pub theme_to_widgets : String → lister.Cached → List Request
  unfolding to_requests
  theme_to_widgets name c = to_requests (lister.list c theme_ref_field name)

  unfoldable pub all_widgets_with_theme_ref : lister.Cached → List Request
  unfolding to_requests
  all_widgets_with_theme_ref c = to_requests (lister.list c has_theme_ref_field "true")
