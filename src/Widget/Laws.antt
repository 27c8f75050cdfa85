-- ===== src/Widget/Laws.antt =====
-- What the functions of api/v1alpha1/widget_lifecycle.go do to the two conditions of a Widget.
use dynamic_crd_watch.Base.{
  String, ◌≡◌, ◌≢◌, refl, ap, List, true, false, Option, none, some, arith, is_some,
}
use dynamic_crd_watch.Base.Text.{Text}
use dynamic_crd_watch.Condition.{Condition, ConditionStatus, condition_true, condition_false}
use dynamic_crd_watch.Widget.{
  Meta, Widget, condition_plugin_ready, condition_theme_ready, set_condition, mark_plugin_applied,
  mark_plugin_crd_not_available, mark_plugin_not_found, remove_plugin_condition,
  has_plugin_condition, mark_theme_applied, mark_theme_crd_not_available, mark_theme_not_found,
  remove_theme_condition, has_theme_condition,
}

plugin_ne_theme : condition_plugin_ready ≢ condition_theme_ready
plugin_ne_theme e = ground arith

theme_ne_plugin : condition_theme_ready ≢ condition_plugin_ready
theme_ne_plugin e = ground arith

module _ (meta : Meta) where
  abbrev pub plugin_condition : Widget → Option Condition
  plugin_condition w = meta.find_status_condition w.status.conditions condition_plugin_ready

  abbrev pub theme_condition : Widget → Option Condition
  theme_condition w = meta.find_status_condition w.status.conditions condition_theme_ready

  -- Nothing of `w` but a condition is changed in `w'`.
  abbrev pub Agree : Widget → Widget → Type 0
  Agree w w' =
      (w'.spec ≡ w.spec)
      × (w'.namespace ≡ w.namespace)
      × (w'.name ≡ w.name)
      × (w'.generation ≡ w.generation)
      × (w'.status.observed_generation ≡ w.status.observed_generation)

  -- A condition says this of the Widget's generation.
  abbrev pub Says : Widget → ConditionStatus → String → Option Condition → Type 0
  Says w status reason none = ⊥
  Says w status reason (some c) =
      (c.status ≡ status) × (c.reason ≡ reason) × (c.observed_generation ≡ w.generation)

  -- `PluginReady` says this in `w'`, and the rest is that of `w`.
  abbrev pub PluginSays : Widget → ConditionStatus → String → Widget → Type 0
  PluginSays w status reason w' =
      Says w status reason (plugin_condition w')
      × (theme_condition w' ≡ theme_condition w)
      × Agree w w'

  abbrev pub ThemeSays : Widget → ConditionStatus → String → Widget → Type 0
  ThemeSays w status reason w' =
      Says w status reason (theme_condition w')
      × (plugin_condition w' ≡ plugin_condition w)
      × Agree w w'

  Says-intro :
      (w : Widget) (c : Condition) (o : Option Condition)
      → o ≡ some c
      → c.observed_generation ≡ w.generation
      → Says w c.status c.reason o
  Says-intro w c none e g = ground arith
  Says-intro w c (some d) e g = ground arith

  -- The condition that `set_condition` sets.
  abbrev entry : Widget → Text → ConditionStatus → String → String → Condition
  entry w type status reason message = record {
    type = type;
    status = status;
    reason = reason;
    message = message;
    observed_generation = w.generation;
  }

  set_condition-PluginSays :
      (w : Widget) (status : ConditionStatus) (reason message : String)
      → PluginSays w status reason
          (set_condition meta w condition_plugin_ready status reason message)
  set_condition-PluginSays w status reason message =
      let c : Condition = entry w condition_plugin_ready status reason message in
      let cs : List Condition = w.status.conditions in
      (
        Says-intro w c _ (meta.find-set cs c) refl,
        meta.find-set_ne cs c condition_theme_ready plugin_ne_theme,
        (refl, refl, refl, refl, refl),
      )

  set_condition-ThemeSays :
      (w : Widget) (status : ConditionStatus) (reason message : String)
      → ThemeSays w status reason (set_condition meta w condition_theme_ready status reason message)
  set_condition-ThemeSays w status reason message =
      let c : Condition = entry w condition_theme_ready status reason message in
      let cs : List Condition = w.status.conditions in
      (
        Says-intro w c _ (meta.find-set cs c) refl,
        meta.find-set_ne cs c condition_plugin_ready theme_ne_plugin,
        (refl, refl, refl, refl, refl),
      )

  abbrev pub PluginMarks : Widget → String → Type 0
  PluginMarks w text =
      PluginSays w condition_true "PluginApplied" (mark_plugin_applied meta text w)
      × PluginSays w condition_false "PluginCRDNotAvailable" (mark_plugin_crd_not_available meta w)
      × PluginSays w condition_false "PluginNotFound" (mark_plugin_not_found meta text w)
      × (has_plugin_condition meta (mark_plugin_applied meta text w) ≡ true)
      × (has_plugin_condition meta (remove_plugin_condition meta w) ≡ false)
      × (plugin_condition (remove_plugin_condition meta w) ≡ none)
      × (theme_condition (remove_plugin_condition meta w) ≡ theme_condition w)
      × Agree w (remove_plugin_condition meta w)

  pub plugin_marks : (w : Widget) (text : String) → PluginMarks w text
  unfolding mark_plugin_applied mark_plugin_crd_not_available mark_plugin_not_found
      remove_plugin_condition has_plugin_condition
  plugin_marks w text =
      let cs : List Condition = w.status.conditions in
      let gone = meta.find-remove cs condition_plugin_ready in
      (
        set_condition-PluginSays w _ _ _,
        set_condition-PluginSays w _ _ _,
        set_condition-PluginSays w _ _ _,
        ap is_some (meta.find-set cs _),
        ap is_some gone,
        gone,
        meta.find-remove_ne cs condition_plugin_ready condition_theme_ready plugin_ne_theme,
        (refl, refl, refl, refl, refl),
      )

  abbrev pub ThemeMarks : Widget → String → Type 0
  ThemeMarks w text =
      ThemeSays w condition_true "ThemeApplied" (mark_theme_applied meta text w)
      × ThemeSays w condition_false "ThemeCRDNotAvailable" (mark_theme_crd_not_available meta w)
      × ThemeSays w condition_false "ThemeNotFound" (mark_theme_not_found meta text w)
      × (has_theme_condition meta (mark_theme_applied meta text w) ≡ true)
      × (has_theme_condition meta (remove_theme_condition meta w) ≡ false)
      × (theme_condition (remove_theme_condition meta w) ≡ none)
      × (plugin_condition (remove_theme_condition meta w) ≡ plugin_condition w)
      × Agree w (remove_theme_condition meta w)

  pub theme_marks : (w : Widget) (text : String) → ThemeMarks w text
  unfolding mark_theme_applied mark_theme_crd_not_available mark_theme_not_found
      remove_theme_condition has_theme_condition
  theme_marks w text =
      let cs : List Condition = w.status.conditions in
      let gone = meta.find-remove cs condition_theme_ready in
      (
        set_condition-ThemeSays w _ _ _,
        set_condition-ThemeSays w _ _ _,
        set_condition-ThemeSays w _ _ _,
        ap is_some (meta.find-set cs _),
        ap is_some gone,
        gone,
        meta.find-remove_ne cs condition_theme_ready condition_plugin_ready theme_ne_plugin,
        (refl, refl, refl, refl, refl),
      )
