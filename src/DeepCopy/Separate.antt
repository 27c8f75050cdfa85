-- ===== src/DeepCopy/Separate.antt =====
-- A copy that `DeepCopy` of api/v1alpha1/zz_generated.deepcopy.go makes and its original are apart.
use dynamic_crd_watch.Base.{◌≡◌, refl, ◌∙◌, Option, none, some, List}
use dynamic_crd_watch.Widget.{WidgetSpec}
use dynamic_crd_watch.DeepCopy.Types.{
  MetaTypes, TypeMeta, PluginConfigSpec, ThemeSpec, WidgetStatus, PluginConfig, Theme, Widget,
  PluginConfigList, ThemeList, WidgetList, Heap,
}
use dynamic_crd_watch.DeepCopy.Copier.{Agree, Extends, Copier, IsDeep}
use dynamic_crd_watch.DeepCopy.Generated.{
  MetaCopies, plugin_config, plugin_config_list, plugin_config_spec, theme, theme_list, theme_spec,
  widget, widget_list, widget_spec, widget_status, WidgetView, WidgetStatusView,
}
use dynamic_crd_watch.DeepCopy.Pointers.{
  deep_copy, deep_copy_object, plugin_config_object, plugin_config_deep_copy_object,
  plugin_config_list_object, plugin_config_list_deep_copy_object, theme_object,
  theme_deep_copy_object, theme_list_object, theme_list_deep_copy_object, widget_object,
  widget_deep_copy_object, widget_list_object, widget_list_deep_copy_object,
  plugin_config_deep_copy, plugin_config_list_deep_copy, plugin_config_spec_deep_copy,
  theme_deep_copy, theme_list_deep_copy, theme_spec_deep_copy, widget_deep_copy,
  widget_list_deep_copy, widget_spec_deep_copy, widget_status_deep_copy,
}
use dynamic_crd_watch.DeepCopy.Deep.{
  AreDeep, plugin_config-IsDeep, plugin_config_list-IsDeep, plugin_config_spec-IsDeep, theme-IsDeep,
  theme_list-IsDeep, theme_spec-IsDeep, widget-IsDeep, widget_list-IsDeep, widget_spec-IsDeep,
  widget_status-IsDeep,
}

-- The types that have a `DeepCopy`.
pub data Kind : Type 0 where
  plugin_configs plugin_config_lists plugin_config_specs themes theme_lists theme_specs : Kind
  widgets widget_lists widget_specs widget_statuses : Kind

abbrev pub Value : MetaTypes → Kind → Type 0
Value t plugin_configs = PluginConfig t
Value t plugin_config_lists = PluginConfigList t
Value t plugin_config_specs = PluginConfigSpec
Value t themes = Theme t
Value t theme_lists = ThemeList t
Value t theme_specs = ThemeSpec
Value t widgets = Widget t
Value t widget_lists = WidgetList t
Value t widget_specs = WidgetSpec
Value t widget_statuses = WidgetStatus

-- The store after a copy has all that was in it, and the copy reads as the original did, even once
-- anything outside the blocks that the copy allocated is written or added; and what is written or
-- added outside the older blocks does not change what the original reads as.
pub record AreApart {t : MetaTypes} {V View : Type 0} (c : Copier t V View) (h : Heap t) (v : V)
    (copied : V) (h' : Heap t) : Type 0 where
  pub extends : Extends t h h'
  pub copy_reads : (k : Heap t) → Agree t h.next h'.next h' k → c.view k copied ≡ c.view h v
  pub original_reads : (k : Heap t) → Agree t 0 h.next h k → c.view k v ≡ c.view h v

pub IsDeep-AreApart :
    {t : MetaTypes} {V View : Type 0} {c : Copier t V View}
    → IsDeep t c
    → (h : Heap t) (v : V) → c.Within 0 h.next h v
    → AreApart c h v (c.copy v h).0 (c.copy v h).1
IsDeep-AreApart {c = c} deep h v inside =
    let (v', h') = c.copy v h in
    record {
      extends = deep.extends h v inside;
      copy_reads = λ k g.
          (deep.kept h.next h'.next h' k v' (deep.fresh h v inside) g).0
          ∙ deep.reads_same h v inside;
      original_reads = λ k g. (deep.kept 0 h.next h k v inside g).0;
    }

module _ {t : MetaTypes} (m : MetaCopies t) where
  abbrev pub Reading : Kind → Type 0
  Reading plugin_configs = TypeMeta × m.ObjectView × PluginConfigSpec
  Reading plugin_config_lists =
      TypeMeta × m.ListView × Option (List (TypeMeta × m.ObjectView × PluginConfigSpec))
  Reading plugin_config_specs = PluginConfigSpec
  Reading themes = TypeMeta × m.ObjectView × ThemeSpec
  Reading theme_lists = TypeMeta × m.ListView × Option (List (TypeMeta × m.ObjectView × ThemeSpec))
  Reading theme_specs = ThemeSpec
  Reading widgets = WidgetView m
  Reading widget_lists = TypeMeta × m.ListView × Option (List (WidgetView m))
  Reading widget_specs = WidgetSpec
  Reading widget_statuses = WidgetStatusView m

  abbrev pub copier : (k : Kind) → Copier t (Value t k) (Reading k)
  copier plugin_configs = plugin_config m
  copier plugin_config_lists = plugin_config_list m
  copier plugin_config_specs = plugin_config_spec m
  copier themes = theme m
  copier theme_lists = theme_list m
  copier theme_specs = theme_spec m
  copier widgets = widget m
  copier widget_lists = widget_list m
  copier widget_specs = widget_spec m
  copier widget_statuses = widget_status m

  -- The `DeepCopy` of each type.
  abbrev pub deep_copy_of : (k : Kind) → Option (Value t k) → Heap t → Option (Value t k) × Heap t
  deep_copy_of plugin_configs = plugin_config_deep_copy m
  deep_copy_of plugin_config_lists = plugin_config_list_deep_copy m
  deep_copy_of plugin_config_specs = plugin_config_spec_deep_copy m
  deep_copy_of themes = theme_deep_copy m
  deep_copy_of theme_lists = theme_list_deep_copy m
  deep_copy_of theme_specs = theme_spec_deep_copy m
  deep_copy_of widgets = widget_deep_copy m
  deep_copy_of widget_lists = widget_list_deep_copy m
  deep_copy_of widget_specs = widget_spec_deep_copy m
  deep_copy_of widget_statuses = widget_status_deep_copy m

  -- `DeepCopyObject`, of the types that have one, gives a nil interface for nil, and else the copy.
  abbrev pub ObjectsCopied : (k : Kind) → Value t k → Heap t → Value t k → Heap t → Type 0
  ObjectsCopied plugin_configs v h copied h' =
      (plugin_config_deep_copy_object m none h ≡ (none, h))
      × (plugin_config_deep_copy_object m (some v) h ≡ (some (plugin_config_object copied), h'))
  ObjectsCopied plugin_config_lists v h copied h' =
      (plugin_config_list_deep_copy_object m none h ≡ (none, h))
      × (plugin_config_list_deep_copy_object m (some v) h
          ≡ (some (plugin_config_list_object copied), h'))
  ObjectsCopied themes v h copied h' =
      (theme_deep_copy_object m none h ≡ (none, h))
      × (theme_deep_copy_object m (some v) h ≡ (some (theme_object copied), h'))
  ObjectsCopied theme_lists v h copied h' =
      (theme_list_deep_copy_object m none h ≡ (none, h))
      × (theme_list_deep_copy_object m (some v) h ≡ (some (theme_list_object copied), h'))
  ObjectsCopied widgets v h copied h' =
      (widget_deep_copy_object m none h ≡ (none, h))
      × (widget_deep_copy_object m (some v) h ≡ (some (widget_object copied), h'))
  ObjectsCopied widget_lists v h copied h' =
      (widget_list_deep_copy_object m none h ≡ (none, h))
      × (widget_list_deep_copy_object m (some v) h ≡ (some (widget_list_object copied), h'))
  ObjectsCopied plugin_config_specs v h copied h' = Unit
  ObjectsCopied theme_specs v h copied h' = Unit
  ObjectsCopied widget_specs v h copied h' = Unit
  ObjectsCopied widget_statuses v h copied h' = Unit

module _ {t : MetaTypes} (m : MetaCopies t) (deep : AreDeep m) where
  copier-IsDeep : (k : Kind) → IsDeep t (copier m k)
  copier-IsDeep plugin_configs = plugin_config-IsDeep m deep
  copier-IsDeep plugin_config_lists = plugin_config_list-IsDeep m deep
  copier-IsDeep plugin_config_specs = plugin_config_spec-IsDeep m deep
  copier-IsDeep themes = theme-IsDeep m deep
  copier-IsDeep theme_lists = theme_list-IsDeep m deep
  copier-IsDeep theme_specs = theme_spec-IsDeep m deep
  copier-IsDeep widgets = widget-IsDeep m deep
  copier-IsDeep widget_lists = widget_list-IsDeep m deep
  copier-IsDeep widget_specs = widget_spec-IsDeep m deep
  copier-IsDeep widget_statuses = widget_status-IsDeep m deep

  deep_copy_of-deep_copy :
      (k : Kind) (p : Option (Value t k)) (h : Heap t)
      → deep_copy_of m k p h ≡ deep_copy (copier m k) p h
  unfolding plugin_config_deep_copy plugin_config_list_deep_copy plugin_config_spec_deep_copy
      theme_deep_copy theme_list_deep_copy theme_spec_deep_copy widget_deep_copy
      widget_list_deep_copy widget_spec_deep_copy widget_status_deep_copy
  deep_copy_of-deep_copy plugin_configs p h = refl
  deep_copy_of-deep_copy plugin_config_lists p h = refl
  deep_copy_of-deep_copy plugin_config_specs p h = refl
  deep_copy_of-deep_copy themes p h = refl
  deep_copy_of-deep_copy theme_lists p h = refl
  deep_copy_of-deep_copy theme_specs p h = refl
  deep_copy_of-deep_copy widgets p h = refl
  deep_copy_of-deep_copy widget_lists p h = refl
  deep_copy_of-deep_copy widget_specs p h = refl
  deep_copy_of-deep_copy widget_statuses p h = refl

  deep_copy_of-ObjectsCopied :
      (k : Kind) (v : Value t k) (h : Heap t)
      → ObjectsCopied m k v h ((copier m k).copy v h).0 ((copier m k).copy v h).1
  unfolding deep_copy deep_copy_object plugin_config_deep_copy_object
      plugin_config_list_deep_copy_object theme_deep_copy_object theme_list_deep_copy_object
      widget_deep_copy_object widget_list_deep_copy_object
  deep_copy_of-ObjectsCopied plugin_configs v h = (refl, refl)
  deep_copy_of-ObjectsCopied plugin_config_lists v h = (refl, refl)
  deep_copy_of-ObjectsCopied themes v h = (refl, refl)
  deep_copy_of-ObjectsCopied theme_lists v h = (refl, refl)
  deep_copy_of-ObjectsCopied widgets v h = (refl, refl)
  deep_copy_of-ObjectsCopied widget_lists v h = (refl, refl)
  deep_copy_of-ObjectsCopied plugin_config_specs v h = tt
  deep_copy_of-ObjectsCopied theme_specs v h = tt
  deep_copy_of-ObjectsCopied widget_specs v h = tt
  deep_copy_of-ObjectsCopied widget_statuses v h = tt

  -- For each of the ten types, where the copies of package meta/v1 are deep: `DeepCopy` of nil is nil,
  -- and `DeepCopy` of a value on the blocks that are in use gives a copy that reads the same and is
  -- apart from it, so that neither sees what is written to the blocks of the other;
  -- `DeepCopyObject`, of the six types that have one, gives the same copy as an object.
  pub deep_copy_of-AreApart :
      (k : Kind) (v : Value t k) (h : Heap t)
      → (copier m k).Within 0 h.next h v
      → (deep_copy_of m k none h ≡ (none, h))
        × (copied : Value t k) × (h' : Heap t) × (deep_copy_of m k (some v) h ≡ (some copied, h'))
        × AreApart (copier m k) h v copied h'
        × ObjectsCopied m k v h copied h'
  unfolding deep_copy
  deep_copy_of-AreApart k v h inside = (
    deep_copy_of-deep_copy k none h,
    ((copier m k).copy v h).0,
    ((copier m k).copy v h).1,
    deep_copy_of-deep_copy k (some v) h,
    IsDeep-AreApart (copier-IsDeep k) h v inside,
    deep_copy_of-ObjectsCopied k v h,
  )
