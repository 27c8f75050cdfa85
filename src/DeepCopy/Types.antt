-- ===== src/DeepCopy/Types.antt =====
-- api/v1alpha1: the types of plugin_config_types.go, theme_types.go and widget_types.go as they lie in
-- memory, where a slice is a reference to a block of the store that other slices can share.
use dynamic_crd_watch.Base.{ℕ, String, List}
use dynamic_crd_watch.Widget.{WidgetSpec}

-- The types of the package meta/v1 that are copied, and what else its copies allocate.
pub record MetaTypes : Type 1 where
  pub ObjectMeta : Type 0
  pub ListMeta : Type 0
  pub Condition : Type 0
  pub Foreign : Type 0

pub data Slice : Type 0 where
  nil : Slice
  at : (address : ℕ) → Slice

pub record TypeMeta : Type 0 where
  pub kind : String
  pub api_version : String

pub record PluginConfigSpec : Type 0 where
  pub setting : String

pub record ThemeSpec : Type 0 where
  pub color_scheme : String

pub record WidgetStatus : Type 0 where
  pub observed_generation : ℕ
  pub conditions : Slice

module _ (t : MetaTypes) where
  pub record PluginConfig : Type 0 where
    pub type_meta : TypeMeta
    pub object_meta : t.ObjectMeta
    pub spec : PluginConfigSpec

  pub record Theme : Type 0 where
    pub type_meta : TypeMeta
    pub object_meta : t.ObjectMeta
    pub spec : ThemeSpec

  pub record Widget : Type 0 where
    pub type_meta : TypeMeta
    pub object_meta : t.ObjectMeta
    pub spec : WidgetSpec
    pub status : WidgetStatus

  pub record PluginConfigList : Type 0 where
    pub type_meta : TypeMeta
    pub list_meta : t.ListMeta
    pub items : Slice

  pub record ThemeList : Type 0 where
    pub type_meta : TypeMeta
    pub list_meta : t.ListMeta
    pub items : Slice

  pub record WidgetList : Type 0 where
    pub type_meta : TypeMeta
    pub list_meta : t.ListMeta
    pub items : Slice

  -- The blocks by their addresses, which the types share; those from `next` on are free.
  pub record Heap : Type 0 where
    pub next : ℕ
    pub conditions : ℕ → List t.Condition
    pub plugin_configs : ℕ → List PluginConfig
    pub themes : ℕ → List Theme
    pub widgets : ℕ → List Widget
    pub foreign : ℕ → t.Foreign
