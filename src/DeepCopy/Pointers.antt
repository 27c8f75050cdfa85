-- ===== src/DeepCopy/Pointers.antt =====
-- api/v1alpha1/zz_generated.deepcopy.go: `DeepCopy` and `DeepCopyObject` of each type.
use dynamic_crd_watch.Base.{Option, none, some}
use dynamic_crd_watch.Widget.{WidgetSpec}
use dynamic_crd_watch.DeepCopy.Types.{
  MetaTypes, PluginConfigSpec, ThemeSpec, WidgetStatus, PluginConfig, Theme, Widget,
  PluginConfigList, ThemeList, WidgetList, Heap,
}
use dynamic_crd_watch.DeepCopy.Copier.{Copier}
use dynamic_crd_watch.DeepCopy.Generated.{
  MetaCopies, plugin_config, plugin_config_list, plugin_config_spec, theme, theme_list, theme_spec,
  widget, widget_list, widget_spec, widget_status,
}

module _ {t : MetaTypes} where
  -- `DeepCopy`, for a pointer that may be nil.
  unfoldable pub deep_copy :
      {V View : Type 0} → Copier t V View → Option V → Heap t → Option V × Heap t
  deep_copy c none h = (none, h)
  deep_copy c (some v) h = let (copied, h₁) = c.copy v h in (some copied, h₁)

-- `runtime.Object`, as far as the types of the package implement it.
pub data Object (t : MetaTypes) : Type 0 where
  plugin_config_object : PluginConfig t → Object t
  plugin_config_list_object : PluginConfigList t → Object t
  theme_object : Theme t → Object t
  theme_list_object : ThemeList t → Object t
  widget_object : Widget t → Object t
  widget_list_object : WidgetList t → Object t

-- `DeepCopyObject`: a nil pointer gives a nil interface.
unfoldable pub deep_copy_object :
    {t : MetaTypes} {V View : Type 0}
    → (V → Object t)
    → Copier t V View
    → Option V
    → Heap t
    → Option (Object t) × Heap t
unfolding deep_copy
deep_copy_object as_object c v h =
    let (copied, h₁) = deep_copy c v h in
    (elim copied [ none ↦ none | some x ↦ some (as_object x) ], h₁)

module _ {t : MetaTypes} (m : MetaCopies t) where
  unfoldable pub plugin_config_deep_copy :
      Option (PluginConfig t) → Heap t → Option (PluginConfig t) × Heap t
  unfolding deep_copy
  plugin_config_deep_copy = deep_copy (plugin_config m)

  unfoldable pub plugin_config_deep_copy_object :
      Option (PluginConfig t) → Heap t → Option (Object t) × Heap t
  unfolding deep_copy_object
  plugin_config_deep_copy_object = deep_copy_object plugin_config_object (plugin_config m)

  unfoldable pub plugin_config_list_deep_copy :
      Option (PluginConfigList t) → Heap t → Option (PluginConfigList t) × Heap t
  unfolding deep_copy
  plugin_config_list_deep_copy = deep_copy (plugin_config_list m)

  unfoldable pub plugin_config_list_deep_copy_object :
      Option (PluginConfigList t) → Heap t → Option (Object t) × Heap t
  unfolding deep_copy_object
  plugin_config_list_deep_copy_object =
      deep_copy_object plugin_config_list_object (plugin_config_list m)

  unfoldable pub plugin_config_spec_deep_copy :
      Option PluginConfigSpec → Heap t → Option PluginConfigSpec × Heap t
  unfolding deep_copy
  plugin_config_spec_deep_copy = deep_copy (plugin_config_spec m)

  unfoldable pub theme_deep_copy : Option (Theme t) → Heap t → Option (Theme t) × Heap t
  unfolding deep_copy
  theme_deep_copy = deep_copy (theme m)

  unfoldable pub theme_deep_copy_object : Option (Theme t) → Heap t → Option (Object t) × Heap t
  unfolding deep_copy_object
  theme_deep_copy_object = deep_copy_object theme_object (theme m)

  unfoldable pub theme_list_deep_copy :
      Option (ThemeList t) → Heap t → Option (ThemeList t) × Heap t
  unfolding deep_copy
  theme_list_deep_copy = deep_copy (theme_list m)

  unfoldable pub theme_list_deep_copy_object :
      Option (ThemeList t) → Heap t → Option (Object t) × Heap t
  unfolding deep_copy_object
  theme_list_deep_copy_object = deep_copy_object theme_list_object (theme_list m)

  unfoldable pub theme_spec_deep_copy : Option ThemeSpec → Heap t → Option ThemeSpec × Heap t
  unfolding deep_copy
  theme_spec_deep_copy = deep_copy (theme_spec m)

  unfoldable pub widget_deep_copy : Option (Widget t) → Heap t → Option (Widget t) × Heap t
  unfolding deep_copy
  widget_deep_copy = deep_copy (widget m)

  unfoldable pub widget_deep_copy_object : Option (Widget t) → Heap t → Option (Object t) × Heap t
  unfolding deep_copy_object
  widget_deep_copy_object = deep_copy_object widget_object (widget m)

  unfoldable pub widget_list_deep_copy :
      Option (WidgetList t) → Heap t → Option (WidgetList t) × Heap t
  unfolding deep_copy
  widget_list_deep_copy = deep_copy (widget_list m)

  unfoldable pub widget_list_deep_copy_object :
      Option (WidgetList t) → Heap t → Option (Object t) × Heap t
  unfolding deep_copy_object
  widget_list_deep_copy_object = deep_copy_object widget_list_object (widget_list m)

  unfoldable pub widget_spec_deep_copy : Option WidgetSpec → Heap t → Option WidgetSpec × Heap t
  unfolding deep_copy
  widget_spec_deep_copy = deep_copy (widget_spec m)

  unfoldable pub widget_status_deep_copy :
      Option WidgetStatus → Heap t → Option WidgetStatus × Heap t
  unfolding deep_copy
  widget_status_deep_copy = deep_copy (widget_status m)
