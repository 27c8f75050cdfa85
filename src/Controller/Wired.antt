-- ===== src/Controller/Wired.antt =====
-- What `SetupWithManager` of internal/controller/widget_controller.go leaves behind.
use mathlib.Core.Path.{subst}
use dynamic_crd_watch.Base.{
  ℕ, String, ◌≡◌, refl, ap, ◌∙◌, inl, inr, true, false, Option, none, some, [], ◌∷◌, arith, codes,
  Option-cases,
}
use dynamic_crd_watch.Base.Text.{Text}
use dynamic_crd_watch.Base.Failing.{ok, Failing, ◌>>=◌, ◌>>◌, return, >>=-eq-ok, Result-cases}
use dynamic_crd_watch.Watcher.{new_watcher}
use dynamic_crd_watch.Builder.{Manager, WatcherBuilder, Built, build, default_sync_timeout}
use dynamic_crd_watch.Builder.Assembled.{IsBuilt, build-IsBuilt}
use dynamic_crd_watch.Condition.Naming.{condition_type_from_crd_name}
use dynamic_crd_watch.Registry.{new_crd_cache}
use dynamic_crd_watch.Controller.Mapping.{field_indexes}
use dynamic_crd_watch.Controller.Setup.{
  plugin_config_crd_name, theme_crd_name, Wiring, SetupError, wrap, call, index_all,
  plugin_watch_builder, theme_watch_builder, setup_with_manager,
}

-- A watcher that was made for this CRD, with this handler, callback, condition type and CRD cache: it
-- has not started, has no predicates and no recorder, and waits 30 seconds for a sync.
pub record IsWatch {m : Manager} (crd_name : String) (handler : m.Handler) (requeue_all : m.Requeue)
    (condition_type : Text) (crd_cache : m.Cache) (v : Built m) : Type 0 where
  pub new : v.watcher ≡ new_watcher crd_name condition_type false
  pub handler_is : v.obj_handler ≡ handler
  pub callback_is : v.requeue_all ≡ requeue_all
  pub cache_is : v.crd_cache ≡ crd_cache
  pub unfiltered : v.predicates ≡ []
  pub waits : v.sync_timeout ≡ default_sync_timeout

module _ {m : Manager} (upper : ℕ → ℕ) where
  -- A builder as the chains of calls leave it.
  abbrev pub chained : String → Text → Option m.Cache → m.Handler → m.Requeue → WatcherBuilder m
  chained crd_name condition_type crd_cache handler requeue_all = record {
    crd_name = crd_name;
    condition_type = condition_type;
    crd_cache = crd_cache;
    obj_handler = some handler;
    owner_type = none;
    owner_opts = [];
    predicates = [];
    requeue_all = some requeue_all;
    default_namespaces = none;
    sync_timeout = 0;
    recorder = none;
  }

  pub chained-IsWatch :
      (crd_name : String) (given_type condition_type : Text) (handler : m.Handler)
      (requeue_all : m.Requeue) (c d : m.Cache) (v : Built m)
      → IsBuilt upper (chained crd_name given_type (some c) handler requeue_all) v
      → v.condition_type ≡ condition_type
      → c ≡ d
      → IsWatch crd_name handler requeue_all condition_type d v
  chained-IsWatch crd_name given_type condition_type handler requeue_all c d v b e same = record {
    new = b.new ∙ ap (λ t. new_watcher crd_name t false) e;
    handler_is = b.handler handler refl;
    callback_is = ground (arith, b.callback);
    cache_is = b.shared c refl ∙ same;
    unfiltered = b.predicates;
    waits = b.default_timeout refl;
  }

pub wrap-eq-ok :
    {State E F A : Type 0} (f : E → F) (c : Failing State E A) (s : State) {t : State} {a : A}
    → wrap f c s ≡ (ok a, t)
    → c s ≡ (ok a, t)
wrap-eq-ok f c s h = elim (Result-cases (c s).0) [
  | inl (a, e) ↦ ground arith
  | inr (x, e) ↦ absurd (ground arith)
]

module _ {m : Manager} (upper : ℕ → ℕ) (w : Wiring m) where
  -- The builders of the two watchers, by their condition types and CRD caches.
  abbrev pub plugin_builder : Text → Option m.Cache → WatcherBuilder m
  plugin_builder condition_type crd_cache =
      chained upper plugin_config_crd_name condition_type crd_cache w.plugin_config_to_widgets
        w.all_widgets_with_plugin_ref

  abbrev pub theme_builder : Text → Option m.Cache → WatcherBuilder m
  theme_builder condition_type crd_cache =
      chained upper theme_crd_name condition_type crd_cache w.theme_to_widgets
        w.all_widgets_with_theme_ref

  -- `SetupWithManager` from the indexes on, from the themes on, and from the plugins on.
  abbrev pub from_indexes :
      Built m → Built m → Failing m.State (SetupError m.Error) (Built m × Built m)
  from_indexes p t =
      index_all upper w field_indexes
      >> (call upper w SetupError.completing (w.complete (p ∷ t ∷ [])) >> return (p, t))

  abbrev pub from_themes :
      m.Cache → Built m → Failing m.State (SetupError m.Error) (Built m × Built m)
  from_themes c p =
      wrap SetupError.theme_watch (build m upper (theme_builder [] (some c))) >>= from_indexes p

  abbrev pub from_plugins : m.Cache → Failing m.State (SetupError m.Error) (Built m × Built m)
  from_plugins c =
      wrap SetupError.plugin_watch (build m upper (plugin_builder [] (some c))) >>= from_themes c

  from_indexes-eq-ok :
      (p t : Built m) (s : m.State) {r : Built m × Built m} {s' : m.State}
      → from_indexes p t s ≡ (ok r, s')
      → (p, t) ≡ r
  from_indexes-eq-ok p t s h = elim (Result-cases (index_all upper w field_indexes s).0) [
    | inl (u, e) ↦
        elim (Option-cases (w.complete (p ∷ t ∷ []) (index_all upper w field_indexes s).1).0) [
          | inl f ↦ ground arith
          | inr (x, f) ↦ absurd (ground arith)
        ]
    | inr (x, e) ↦ absurd (ground arith)
  ]

  plugins_type :
      condition_type_from_crd_name upper (codes plugin_config_crd_name)
      ≡ codes "PluginconfigsAvailable"
  unfolding condition_type_from_crd_name
  plugins_type = refl

  themes_type : condition_type_from_crd_name upper (codes theme_crd_name) ≡ codes "ThemesAvailable"
  unfolding condition_type_from_crd_name
  themes_type = refl

  -- `SetupWithManager`, if it succeeds, makes the watcher of the PluginConfigs and that of the Themes, on
  -- one CRD cache, with the condition types derived from their CRDs' names.
  pub setup_with_manager-IsWatch :
      (s : m.State) {p t : Built m} {s' : m.State}
      → setup_with_manager upper w s ≡ (ok (p, t), s')
      → (c : m.Cache) × IsWatch plugin_config_crd_name w.plugin_config_to_widgets
          w.all_widgets_with_plugin_ref
          (codes "PluginconfigsAvailable")
          c
          p
        × IsWatch theme_crd_name w.theme_to_widgets w.all_widgets_with_theme_ref
            (codes "ThemesAvailable")
            c
            t
  unfolding setup_with_manager plugin_watch_builder theme_watch_builder
  setup_with_manager-IsWatch s {p} {t} h =
      let (c, s₁, e₁, h₁) =
        >>=-eq-ok (wrap SetupError.creating_crd_cache (new_crd_cache m true)) from_plugins s h in
      let (p', s₂, e₂, h₂) =
        >>=-eq-ok (wrap SetupError.plugin_watch (build m upper (plugin_builder [] (some c))))
          (from_themes c) s₁ h₁ in
      let (t', s₃, e₃, h₃) =
        >>=-eq-ok (wrap SetupError.theme_watch (build m upper (theme_builder [] (some c))))
          (from_indexes p') s₂ h₂ in
      let same = from_indexes-eq-ok p' t' s₃ h₃ in
      let p_built =
        build-IsBuilt upper (plugin_builder [] (some c)) s₁
          (wrap-eq-ok SetupError.plugin_watch (build m upper (plugin_builder [] (some c))) s₁ e₂) in
      let t_built =
        build-IsBuilt upper (theme_builder [] (some c)) s₂
          (wrap-eq-ok SetupError.theme_watch (build m upper (theme_builder [] (some c))) s₂ e₃) in
      (
        c,
        subst (IsWatch _ _ _ _ c) (ap (λ r. r.0) same) (
            chained-IsWatch upper _ _ _ _ _ c c p' p_built
              (p_built.derived_type refl ∙ plugins_type) refl),
        subst (IsWatch _ _ _ _ c) (ap (λ r. r.1) same) (
            chained-IsWatch upper _ _ _ _ _ c c t' t_built (t_built.derived_type refl ∙ themes_type)
              refl),
      )
