-- ===== src/DeepCopy/Generated.antt =====
-- api/v1alpha1/zz_generated.deepcopy.go: `DeepCopyInto` of each type. It gives what it leaves in
-- `*out`, which it overwrites first; a new variable is its value.
use dynamic_crd_watch.Base.{ℕ, Option, List, update}
use dynamic_crd_watch.Widget.{WidgetSpec}
use dynamic_crd_watch.DeepCopy.Types.{
  MetaTypes, TypeMeta, PluginConfigSpec, ThemeSpec, WidgetStatus, PluginConfig, Theme, Widget,
  PluginConfigList, ThemeList, WidgetList, Heap,
}
use dynamic_crd_watch.DeepCopy.Copier.{Copier}
use dynamic_crd_watch.DeepCopy.Slices.{Arena, copy_slice, view_slice, SliceWithin}

-- The `DeepCopyInto` of the types of package meta/v1, and what their values read as.
pub record MetaCopies (t : MetaTypes) : Type 1 where
  pub ObjectView : Type 0
  pub ListView : Type 0
  pub ConditionView : Type 0
  pub object_meta : Copier t t.ObjectMeta ObjectView
  pub list_meta : Copier t t.ListMeta ListView
  pub condition : Copier t t.Condition ConditionView

module _ {t : MetaTypes} where
  abbrev pub condition_blocks : Arena t t.Condition
  condition_blocks = record {
    block = λ h. h.conditions;
    store = λ a l h. record h { conditions = update h.conditions a l };
  }

  abbrev pub plugin_config_blocks : Arena t (PluginConfig t)
  plugin_config_blocks = record {
    block = λ h. h.plugin_configs;
    store = λ a l h. record h { plugin_configs = update h.plugin_configs a l };
  }

  abbrev pub theme_blocks : Arena t (Theme t)
  theme_blocks = record {
    block = λ h. h.themes;
    store = λ a l h. record h { themes = update h.themes a l };
  }

  abbrev pub widget_blocks : Arena t (Widget t)
  widget_blocks = record {
    block = λ h. h.widgets;
    store = λ a l h. record h { widgets = update h.widgets a l };
  }

module _ {t : MetaTypes} (m : MetaCopies t) where
  unfoldable pub plugin_config_into : PluginConfig t → Heap t → PluginConfig t × Heap t
  plugin_config_into source h =
      let (object_meta, h₁) = m.object_meta.copy source.object_meta h in
      (record { type_meta = source.type_meta; object_meta = object_meta; spec = source.spec }, h₁)

  abbrev pub plugin_config : Copier t (PluginConfig t) (TypeMeta × m.ObjectView × PluginConfigSpec)
  plugin_config = record {
    copy = plugin_config_into;
    view = λ h v. (v.type_meta, m.object_meta.view h v.object_meta, v.spec);
    Within = λ lo hi h v. m.object_meta.Within lo hi h v.object_meta;
  }

  unfoldable pub plugin_config_list_into : PluginConfigList t → Heap t → PluginConfigList t × Heap t
  unfolding copy_slice
  plugin_config_list_into source h =
      let (list_meta, h₁) = m.list_meta.copy source.list_meta h in
      let (items, h₂) = copy_slice plugin_config plugin_config_blocks source.items h₁ in
      (record { type_meta = source.type_meta; list_meta = list_meta; items = items }, h₂)

  abbrev pub plugin_config_list :
      Copier t
        (PluginConfigList t)
        (TypeMeta × m.ListView × Option (List (TypeMeta × m.ObjectView × PluginConfigSpec)))
  plugin_config_list = record {
    copy = plugin_config_list_into;
    view = λ h v. (
      v.type_meta,
      m.list_meta.view h v.list_meta,
      view_slice plugin_config plugin_config_blocks h v.items,
    );
    Within = λ lo hi h v.
        m.list_meta.Within lo hi h v.list_meta
        × SliceWithin plugin_config plugin_config_blocks lo hi h v.items;
  }

  unfoldable pub plugin_config_spec_into : PluginConfigSpec → Heap t → PluginConfigSpec × Heap t
  plugin_config_spec_into source h = (source, h)

  abbrev pub plugin_config_spec : Copier t PluginConfigSpec PluginConfigSpec
  plugin_config_spec = record {
    copy = plugin_config_spec_into;
    view = λ h v. v;
    Within = λ lo hi h v. Unit {0};
  }

  unfoldable pub theme_into : Theme t → Heap t → Theme t × Heap t
  theme_into source h =
      let (object_meta, h₁) = m.object_meta.copy source.object_meta h in
      (record { type_meta = source.type_meta; object_meta = object_meta; spec = source.spec }, h₁)

  abbrev pub theme : Copier t (Theme t) (TypeMeta × m.ObjectView × ThemeSpec)
  theme = record {
    copy = theme_into;
    view = λ h v. (v.type_meta, m.object_meta.view h v.object_meta, v.spec);
    Within = λ lo hi h v. m.object_meta.Within lo hi h v.object_meta;
  }

  unfoldable pub theme_list_into : ThemeList t → Heap t → ThemeList t × Heap t
  unfolding copy_slice
  theme_list_into source h =
      let (list_meta, h₁) = m.list_meta.copy source.list_meta h in
      let (items, h₂) = copy_slice theme theme_blocks source.items h₁ in
      (record { type_meta = source.type_meta; list_meta = list_meta; items = items }, h₂)

  abbrev pub theme_list :
      Copier t
        (ThemeList t)
        (TypeMeta × m.ListView × Option (List (TypeMeta × m.ObjectView × ThemeSpec)))
  theme_list = record {
    copy = theme_list_into;
    view = λ h v.
        (v.type_meta, m.list_meta.view h v.list_meta, view_slice theme theme_blocks h v.items);
    Within = λ lo hi h v.
        m.list_meta.Within lo hi h v.list_meta × SliceWithin theme theme_blocks lo hi h v.items;
  }

  unfoldable pub theme_spec_into : ThemeSpec → Heap t → ThemeSpec × Heap t
  theme_spec_into source h = (source, h)

  abbrev pub theme_spec : Copier t ThemeSpec ThemeSpec
  theme_spec = record { copy = theme_spec_into; view = λ h v. v; Within = λ lo hi h v. Unit {0} }

  unfoldable pub widget_spec_into : WidgetSpec → Heap t → WidgetSpec × Heap t
  widget_spec_into source h = (source, h)

  abbrev pub widget_spec : Copier t WidgetSpec WidgetSpec
  widget_spec = record { copy = widget_spec_into; view = λ h v. v; Within = λ lo hi h v. Unit {0} }

  unfoldable pub widget_status_into : WidgetStatus → Heap t → WidgetStatus × Heap t
  unfolding copy_slice
  widget_status_into source h =
      let (conditions, h₁) = copy_slice m.condition condition_blocks source.conditions h in
      (record source { conditions = conditions }, h₁)

  abbrev pub WidgetStatusView : Type 0
  WidgetStatusView = ℕ × Option (List m.ConditionView)

  abbrev pub widget_status : Copier t WidgetStatus WidgetStatusView
  widget_status = record {
    copy = widget_status_into;
    view = λ h v. (v.observed_generation, view_slice m.condition condition_blocks h v.conditions);
    Within = λ lo hi h v. SliceWithin m.condition condition_blocks lo hi h v.conditions;
  }

  unfoldable pub widget_into : Widget t → Heap t → Widget t × Heap t
  unfolding widget_status_into
  widget_into source h =
      let (object_meta, h₁) = m.object_meta.copy source.object_meta h in
      let (status, h₂) = widget_status_into source.status h₁ in
      (
        record {
          type_meta = source.type_meta;
          object_meta = object_meta;
          spec = source.spec;
          status = status;
        },
        h₂,
      )

  abbrev pub WidgetView : Type 0
  WidgetView = TypeMeta × m.ObjectView × WidgetSpec × WidgetStatusView

  abbrev pub widget : Copier t (Widget t) WidgetView
  widget = record {
    copy = widget_into;
    view = λ h v.
        (v.type_meta, m.object_meta.view h v.object_meta, v.spec, widget_status.view h v.status);
    Within = λ lo hi h v.
        m.object_meta.Within lo hi h v.object_meta × widget_status.Within lo hi h v.status;
  }

  unfoldable pub widget_list_into : WidgetList t → Heap t → WidgetList t × Heap t
  unfolding copy_slice
  widget_list_into source h =
      let (list_meta, h₁) = m.list_meta.copy source.list_meta h in
      let (items, h₂) = copy_slice widget widget_blocks source.items h₁ in
      (record { type_meta = source.type_meta; list_meta = list_meta; items = items }, h₂)

  abbrev pub widget_list :
      Copier t (WidgetList t) (TypeMeta × m.ListView × Option (List WidgetView))
  widget_list = record {
    copy = widget_list_into;
    view = λ h v.
        (v.type_meta, m.list_meta.view h v.list_meta, view_slice widget widget_blocks h v.items);
    Within = λ lo hi h v.
        m.list_meta.Within lo hi h v.list_meta × SliceWithin widget widget_blocks lo hi h v.items;
  }
