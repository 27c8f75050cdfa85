-- ===== src/Controller/Setup.antt =====
-- internal/controller/widget_controller.go: `SetupWithManager`, `SetupWithManagerUsingRegistry` and
-- `setupFieldIndexes`.
use dynamic_crd_watch.Base.{ℕ, String, true, Option, none, some, List, [], ◌∷◌, codes}
use dynamic_crd_watch.Base.Failing.{Result, ok, err, Failing, ◌>>=◌, ◌>>◌, return, throw}
use dynamic_crd_watch.Builder.{
  Manager, WatcherBuilder, for_crd, with_crd_cache, with_event_handler, with_condition_type,
  enqueue_on_crd_change, BuildError, Built, build,
}
use dynamic_crd_watch.Registry.{
  CrdCacheError, new_crd_cache, RegistryError, new_registry, RegisterError, Setup, register_on,
}
use dynamic_crd_watch.Widget.{Widget}
use dynamic_crd_watch.Controller.Mapping.{field_indexes}

abbrev pub plugin_config_crd_name : String
plugin_config_crd_name = "pluginconfigs.demo.example.com"

abbrev pub theme_crd_name : String
theme_crd_name = "themes.demo.example.com"

-- What the set-ups give to the libraries besides the builders: the handlers over the maps of the
-- reconciler, its callbacks, `IndexField`, and the controller builder's `Complete` on the sources.
pub record Wiring (m : Manager) : Type 0 where
  pub plugin_config_to_widgets : m.Handler
  pub theme_to_widgets : m.Handler
  pub all_widgets_with_plugin_ref : m.Requeue
  pub all_widgets_with_theme_ref : m.Requeue
  pub index_field : String → (Widget → List String) → m.State → Option m.Error × m.State
  pub complete : List (Built m) → m.State → Option m.Error × m.State

-- `panicked` is a panic of a builder.
pub data SetupError (Error : Type 0) : Type 0 where
  creating_crd_cache : CrdCacheError Error → SetupError Error
  creating_registry : RegistryError Error → SetupError Error
  plugin_watch : BuildError Error → SetupError Error
  theme_watch : BuildError Error → SetupError Error
  registering_plugin : RegisterError Error → SetupError Error
  registering_theme : RegisterError Error → SetupError Error
  indexing : (field : String) → Error → SetupError Error
  completing : Error → SetupError Error
  panicked : SetupError Error

infixl 5 ◌|>◌
abbrev ◌|>◌ : {A B : Type 0} → Option A → (A → Option B) → Option B
none |> f = none
some a |> f = f a

-- A call in a longer one, with its error wrapped.
abbrev pub wrap : {State E F A : Type 0} → (E → F) → Failing State E A → Failing State F A
wrap f c s = let (r, t) = c s in elim r [ ok a ↦ (ok a, t) | err e ↦ (err (f e), t) ]

module _ {m : Manager} (upper : ℕ → ℕ) (w : Wiring m) where
  abbrev pub given : {State A : Type 0} → Option A → Failing State (SetupError m.Error) A
  given none = throw panicked
  given (some a) = return a

  abbrev pub call :
      (m.Error → SetupError m.Error)
      → (m.State → Option m.Error × m.State)
      → Failing m.State (SetupError m.Error) (Unit {0})
  call f c s =
      let (failure, t) = c s in elim failure [ none ↦ (ok tt, t) | some e ↦ (err (f e), t) ]

  -- The calls of `IndexField`, in order.
  unfoldable pub index_all :
      List (String × (Widget → List String)) → Failing m.State (SetupError m.Error) (Unit {0})
  index_all [] = return tt
  index_all ((field, values) ∷ rest) = do
    call (indexing field) (w.index_field field values)
    index_all rest

  -- The chains of builder calls of `SetupWithManager`, up to `Build`.
  unfoldable pub plugin_watch_builder : Option m.Cache → Option (WatcherBuilder m)
  unfolding for_crd with_crd_cache with_event_handler enqueue_on_crd_change
  plugin_watch_builder crd_cache =
      for_crd m true plugin_config_crd_name
      |> with_crd_cache crd_cache
      |> with_event_handler (some w.plugin_config_to_widgets)
      |> λ b. some (enqueue_on_crd_change (some w.all_widgets_with_plugin_ref) b)

  unfoldable pub theme_watch_builder : Option m.Cache → Option (WatcherBuilder m)
  unfolding for_crd with_crd_cache with_event_handler enqueue_on_crd_change
  theme_watch_builder crd_cache =
      for_crd m true theme_crd_name
      |> with_crd_cache crd_cache
      |> with_event_handler (some w.theme_to_widgets)
      |> λ b. some (enqueue_on_crd_change (some w.all_widgets_with_theme_ref) b)

  -- `SetupWithManager`, with a manager that is not nil; it gives the two watchers.
  unfoldable pub setup_with_manager : Failing m.State (SetupError m.Error) (Built m × Built m)
  unfolding plugin_watch_builder theme_watch_builder index_all
  setup_with_manager = do
    crd_cache ← wrap creating_crd_cache (new_crd_cache m true)
    plugin_builder ← given (plugin_watch_builder (some crd_cache))
    plugin ← wrap plugin_watch (build m upper plugin_builder)
    theme_builder ← given (theme_watch_builder (some crd_cache))
    theme ← wrap theme_watch (build m upper theme_builder)
    index_all field_indexes
    call completing (w.complete (plugin ∷ theme ∷ []))
    return (plugin, theme)

  -- The chains of `SetupWithManagerUsingRegistry`, up to `RegisterOn`.
  unfoldable pub plugin_handle_builder : Option (WatcherBuilder m)
  unfolding for_crd with_condition_type with_event_handler enqueue_on_crd_change
  plugin_handle_builder =
      for_crd m true plugin_config_crd_name
      |> with_condition_type (codes "PluginConfigAvailable")
      |> with_event_handler (some w.plugin_config_to_widgets)
      |> λ b. some (enqueue_on_crd_change (some w.all_widgets_with_plugin_ref) b)

  unfoldable pub theme_handle_builder : Option (WatcherBuilder m)
  unfolding for_crd with_condition_type with_event_handler enqueue_on_crd_change
  theme_handle_builder =
      for_crd m true theme_crd_name
      |> with_condition_type (codes "ThemeAvailable")
      |> with_event_handler (some w.theme_to_widgets)
      |> λ b. some (enqueue_on_crd_change (some w.all_widgets_with_theme_ref) b)

  -- `RegisterOn` with a registry and a controller builder that are not nil.
  abbrev pub enroll :
      (RegisterError m.Error → SetupError m.Error)
      → WatcherBuilder m
      → Failing (Setup m) (SetupError m.Error) (Built m)
  enroll f b s = elim (register_on upper true true b s) [
    | none ↦ (err panicked, s)
    | some (ok v, t) ↦ (ok v, t)
    | some (err e, t) ↦ (err (f e), t)
  ]

  -- A call on the manager alone.
  abbrev pub managing :
      Failing m.State (SetupError m.Error) (Unit {0})
      → Failing (Setup m) (SetupError m.Error) (Unit {0})
  managing c s = let (r, t) = c s.manager in (r, record s { manager = t })

  abbrev pub complete_setup : Failing (Setup m) (SetupError m.Error) (Unit {0})
  complete_setup s = managing (call completing (w.complete s.sources)) s

  -- `SetupWithManagerUsingRegistry` once there is a registry; it gives the two handles' watchers.
  unfoldable pub setup_on_registry : Failing (Setup m) (SetupError m.Error) (Built m × Built m)
  unfolding plugin_handle_builder theme_handle_builder index_all
  setup_on_registry = do
    plugin_builder ← given plugin_handle_builder
    plugin ← enroll registering_plugin plugin_builder
    theme_builder ← given theme_handle_builder
    theme ← enroll registering_theme theme_builder
    managing (index_all field_indexes)
    complete_setup
    return (plugin, theme)

  -- What is done with a new registry, and the registry as that leaves it.
  unfoldable pub on_new_registry :
      {A : Type 0}
      → Failing (Setup m) (SetupError m.Error) A
      → m.State
      → Result (SetupError m.Error) (A × Setup m) × m.State
  on_new_registry c s =
      let (made, t) = new_registry true s in
      elim made [
        | err e ↦ (err (creating_registry e), t)
        | ok registry ↦
            let (r, u) = c (record { manager = t; registry = registry; sources = [] }) in
            elim r [ err e ↦ (err e, u.manager) | ok a ↦ (ok (a, u), u.manager) ]
      ]

  unfoldable pub setup_using_registry :
      m.State → Result (SetupError m.Error) ((Built m × Built m) × Setup m) × m.State
  unfolding setup_on_registry on_new_registry
  setup_using_registry s = on_new_registry setup_on_registry s
