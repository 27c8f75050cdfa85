-- ===== src/Widget.antt =====
-- api/v1alpha1/widget_types.go and widget_lifecycle.go: a Widget and the conditions of its status.
pub mod Laws
use Prim.Native.String
use dynamic_crd_watch.Base.{
  ℕ, String, ◌≡◌, ◌≢◌, Bool, true, false, Option, none, some, List, codes, is_some,
}
use dynamic_crd_watch.Base.Text.{Text}
use dynamic_crd_watch.Condition.{Condition, ConditionStatus, condition_true, condition_false}

-- `meta.SetStatusCondition`, `RemoveStatusCondition` and `FindStatusCondition`, and the format `%q`.
-- Transition times are left out.
pub record Meta : Type 0 where
  pub set_status_condition : List Condition → Condition → List Condition
  pub remove_status_condition : List Condition → Text → List Condition
  pub find_status_condition : List Condition → Text → Option Condition
  pub quote : String → String
  pub find-set :
      (cs : List Condition) (c : Condition)
      → find_status_condition (set_status_condition cs c) c.type ≡ some c
  pub find-set_ne :
      (cs : List Condition) (c : Condition) (t : Text)
      → c.type ≢ t
      → find_status_condition (set_status_condition cs c) t ≡ find_status_condition cs t
  pub find-remove :
      (cs : List Condition) (t : Text)
      → find_status_condition (remove_status_condition cs t) t ≡ none
  pub find-remove_ne :
      (cs : List Condition) (t u : Text)
      → t ≢ u
      → find_status_condition (remove_status_condition cs t) u ≡ find_status_condition cs u

pub record WidgetSpec : Type 0 where
  pub plugin_ref : String
  pub theme_ref : String

pub record WidgetStatus : Type 0 where
  pub observed_generation : ℕ
  pub conditions : List Condition

pub record Widget : Type 0 where
  pub namespace : String
  pub name : String
  pub generation : ℕ
  pub spec : WidgetSpec
  pub status : WidgetStatus

abbrev pub condition_plugin_ready : Text
condition_plugin_ready = codes "PluginReady"

abbrev pub condition_theme_ready : Text
condition_theme_ready = codes "ThemeReady"

abbrev reason_plugin_crd_not_available : String
reason_plugin_crd_not_available = "PluginCRDNotAvailable"

abbrev reason_plugin_applied : String
reason_plugin_applied = "PluginApplied"

abbrev reason_plugin_not_found : String
reason_plugin_not_found = "PluginNotFound"

abbrev reason_theme_crd_not_available : String
reason_theme_crd_not_available = "ThemeCRDNotAvailable"

abbrev reason_theme_applied : String
reason_theme_applied = "ThemeApplied"

abbrev reason_theme_not_found : String
reason_theme_not_found = "ThemeNotFound"

infixr 65 ◌+++◌
abbrev ◌+++◌ : String → String → String
s +++ t = String.◌++◌ s t

module _ (meta : Meta) where
  -- `meta.SetStatusCondition(&w.Status.Conditions, …)` with `ObservedGeneration: w.Generation`
  abbrev pub set_condition : Widget → Text → ConditionStatus → String → String → Widget
  set_condition w type status reason message = record w {
    status = record (w.status) {
      conditions = meta.set_status_condition w.status.conditions (record {
        type = type;
        status = status;
        reason = reason;
        message = message;
        observed_generation = w.generation;
      });
    };
  }

  abbrev pub remove_condition : Widget → Text → Widget
  remove_condition w type = record w {
    status = record (w.status) {
      conditions = meta.remove_status_condition w.status.conditions type;
    };
  }

  unfoldable pub mark_plugin_applied : String → Widget → Widget
  mark_plugin_applied message w =
      set_condition w condition_plugin_ready condition_true reason_plugin_applied message

  unfoldable pub mark_plugin_crd_not_available : Widget → Widget
  mark_plugin_crd_not_available w =
      set_condition w condition_plugin_ready condition_false reason_plugin_crd_not_available
        "PluginConfig CRD is not installed"

  unfoldable pub mark_plugin_not_found : String → Widget → Widget
  mark_plugin_not_found plugin_ref w =
      set_condition w condition_plugin_ready condition_false reason_plugin_not_found
        ("PluginConfig " +++ meta.quote plugin_ref +++ " not found")

  unfoldable pub remove_plugin_condition : Widget → Widget
  remove_plugin_condition w = remove_condition w condition_plugin_ready

  unfoldable pub has_plugin_condition : Widget → Bool
  has_plugin_condition w =
      is_some (meta.find_status_condition w.status.conditions condition_plugin_ready)

  unfoldable pub mark_theme_applied : String → Widget → Widget
  mark_theme_applied message w =
      set_condition w condition_theme_ready condition_true reason_theme_applied message

  unfoldable pub mark_theme_crd_not_available : Widget → Widget
  mark_theme_crd_not_available w =
      set_condition w condition_theme_ready condition_false reason_theme_crd_not_available
        "Theme CRD is not installed"

  unfoldable pub mark_theme_not_found : String → Widget → Widget
  mark_theme_not_found theme_ref w =
      set_condition w condition_theme_ready condition_false reason_theme_not_found
        ("Theme " +++ meta.quote theme_ref +++ " not found")

  unfoldable pub remove_theme_condition : Widget → Widget
  remove_theme_condition w = remove_condition w condition_theme_ready

  unfoldable pub has_theme_condition : Widget → Bool
  has_theme_condition w =
      is_some (meta.find_status_condition w.status.conditions condition_theme_ready)
