-- ===== src/Controller/Enrolled.antt =====
-- What `SetupWithManagerUsingRegistry` of internal/controller/widget_controller.go leaves behind.
use mathlib.Core.Path.{subst}
use dynamic_crd_watch.Base.{
  ℕ, ◌≡◌, ◌≢◌, refl, ap, inl, inr, true, none, some, [], ◌∷◌, arith, codes, Option-cases,
}
use dynamic_crd_watch.Base.Text.{Text}
use dynamic_crd_watch.Base.Failing.{ok, Failing, ◌>>=◌, ◌>>◌, return, >>=-eq-ok, Result-cases}
use dynamic_crd_watch.Builder.{Manager, WatcherBuilder, Built}
use dynamic_crd_watch.Registry.{new_crd_cache, new_registry, RegisterError, Setup, register_on}
use dynamic_crd_watch.Registry.Laws.{
  IsWired, IsWired-moved, register_on-IsWired, register_on-IsBuilt,
}
use dynamic_crd_watch.Controller.Mapping.{field_indexes}
use dynamic_crd_watch.Controller.Setup.{
  plugin_config_crd_name, theme_crd_name, Wiring, SetupError, index_all, plugin_handle_builder,
  theme_handle_builder, enroll, managing, complete_setup, setup_on_registry, on_new_registry,
  setup_using_registry,
}
use dynamic_crd_watch.Controller.Wired.{IsWatch, chained-IsWatch, plugin_builder, theme_builder}

module _ {m : Manager} (upper : ℕ → ℕ) (w : Wiring m) where
  -- The set-up on a registry from the indexes on, from the themes on, and as a whole.
  abbrev pub registry_from_indexes :
      Built m → Built m → Failing (Setup m) (SetupError m.Error) (Built m × Built m)
  registry_from_indexes p t =
      managing upper w (index_all upper w field_indexes)
      >> (complete_setup upper w >> return (p, t))

  abbrev pub registry_from_themes :
      Built m → Failing (Setup m) (SetupError m.Error) (Built m × Built m)
  registry_from_themes p =
      enroll upper w SetupError.registering_theme
        (theme_builder upper w (codes "ThemeAvailable") none)
      >>= registry_from_indexes p

  -- The last calls change the manager alone.
  registry_from_indexes-eq-ok :
      (p t : Built m) (s : Setup m) {r : Built m × Built m} {s' : Setup m}
      → registry_from_indexes p t s ≡ (ok r, s')
      → ((p, t) ≡ r) × (s'.registry ≡ s.registry) × (s'.sources ≡ s.sources)
  registry_from_indexes-eq-ok p t s h =
      elim (Result-cases (index_all upper w field_indexes s.manager).0) [
        | inl (u, e) ↦
            elim (Option-cases
              (w.complete s.sources (index_all upper w field_indexes s.manager).1).0) [
                | inl f ↦ ground arith
                | inr (x, f) ↦ absurd (ground arith)
              ]
        | inr (x, e) ↦ absurd (ground arith)
      ]

  pub enroll-eq-ok :
      (f : RegisterError m.Error → SetupError m.Error) (b : WatcherBuilder m) (s : Setup m)
      {v : Built m} {t : Setup m}
      → enroll upper w f b s ≡ (ok v, t)
      → register_on upper true true b s ≡ some (ok v, t)
  enroll-eq-ok f b s h = elim (Option-cases (register_on upper true true b s)) [
    | inl e ↦ absurd (ground arith)
    | inr ((r, u), e) ↦ elim (Result-cases r) [
      | inl (x, g) ↦ ground arith
      | inr (x, g) ↦ absurd (ground arith)
    ]
  ]

  -- What a registry's set-up leaves: the two watches on the registry's CRD cache, as the controller's
  -- only sources.
  abbrev pub IsSetUp : Built m → Built m → Setup m → Type 0
  IsSetUp p t reg =
      IsWatch plugin_config_crd_name w.plugin_config_to_widgets w.all_widgets_with_plugin_ref
        (codes "PluginConfigAvailable") reg.registry.crd_cache p
      × IsWatch theme_crd_name w.theme_to_widgets w.all_widgets_with_theme_ref
          (codes "ThemeAvailable") reg.registry.crd_cache t
      × (reg.sources ≡ t ∷ p ∷ [])
      × IsWired reg

  -- A new registry, before anything is registered.
  abbrev pub blank : m.State → m.Cache → Setup m
  blank s c = record {
    manager = s;
    registry = record { crd_cache = c; watchers = [] };
    sources = [];
  }

  setup_on_registry-IsSetUp :
      (s : m.State) (c : m.Cache) {p t : Built m} {u : Setup m}
      → setup_on_registry upper w (blank s c) ≡ (ok (p, t), u)
      → IsSetUp p t u
  unfolding setup_on_registry plugin_handle_builder theme_handle_builder
  setup_on_registry-IsSetUp s c {p} {t} {u} h =
      let pb : WatcherBuilder m = plugin_builder upper w (codes "PluginConfigAvailable") none in
      let tb : WatcherBuilder m = theme_builder upper w (codes "ThemeAvailable") none in
      let (p', s₁, e₁, h₁) =
        >>=-eq-ok (enroll upper w SetupError.registering_plugin pb) registry_from_themes (blank s c)
          h in
      let (t', s₂, e₂, h₂) =
        >>=-eq-ok (enroll upper w SetupError.registering_theme tb) (registry_from_indexes p') s₁
          h₁ in
      let (same, registry, sources) = registry_from_indexes-eq-ok p' t' s₂ h₂ in
      let registers_p = enroll-eq-ok SetupError.registering_plugin pb (blank s c) e₁ in
      let registers_t = enroll-eq-ok SetupError.registering_theme tb s₁ e₂ in
      let (p_built, p_cache, p_sources) = register_on-IsBuilt upper pb (blank s c) registers_p in
      let (t_built, t_cache, t_sources) = register_on-IsBuilt upper tb s₁ registers_t in
      let wired_p =
        register_on-IsWired upper pb (blank s c) {r = ok p'} registers_p
          (record { distinct = tt; sources = refl }) in
      let wired_t = register_on-IsWired upper tb s₁ {r = ok t'} registers_t wired_p in
      (
        subst (IsWatch _ _ _ _ _) (ap (λ r. r.0) same) (
            chained-IsWatch upper _ _ _ _ _ c _ p' p_built (p_built.given_type given)
              (ground arith)),
        subst (IsWatch _ _ _ _ _) (ap (λ r. r.1) same) (
            chained-IsWatch upper _ _ _ _ _ s₁.registry.crd_cache _ t' t_built
              (t_built.given_type given) (ground arith)),
        ground arith,
        IsWired-moved registry sources wired_t,
      )
    where
      given : {c : ℕ} {cs : Text} → (c ∷ cs) ≢ []
      given e = ground arith

  -- What goes through on a new registry went on from a blank one.
  on_new_registry-eq-ok :
      {A : Type 0} (k : Failing (Setup m) (SetupError m.Error) A) (s : m.State) {a : A}
      {reg : Setup m} {s' : m.State}
      → on_new_registry upper w k s ≡ (ok (a, reg), s')
      → (c : m.Cache) × (v : m.State) × (k (blank v c) ≡ (ok a, reg))
  unfolding on_new_registry new_registry
  on_new_registry-eq-ok k s h =
      let v : m.State = (new_crd_cache m true s).1 in
      elim (Result-cases (new_crd_cache m true s).0) [
        | inl (c, e) ↦ elim (Result-cases (k (blank v c)).0) [
          | inl (x, f) ↦ (c, v, ground arith)
          | inr (x, f) ↦ absurd (ground arith)
        ]
        | inr (x, e) ↦ absurd (ground arith)
      ]

  -- `SetupWithManagerUsingRegistry`, if it succeeds, makes the watcher of the PluginConfigs and
  -- that of the Themes on the registry's CRD cache, with the condition types that it sets; the
  -- registry has each CRD once, and its watchers, and no other, are the sources of the controller.
  pub setup_using_registry-IsSetUp :
      (s : m.State) {p t : Built m} {reg : Setup m} {s' : m.State}
      → setup_using_registry upper w s ≡ (ok ((p, t), reg), s')
      → IsSetUp p t reg
  unfolding setup_using_registry
  setup_using_registry-IsSetUp s h =
      let (c, v, e) = on_new_registry-eq-ok (setup_on_registry upper w) s h in
      setup_on_registry-IsSetUp v c e
