-- ===== src/Controller/Dispatch.antt =====
-- The reconciler of internal/controller/widget_controller.go reads the watchers that its set-up gave it.
use dynamic_crd_watch.Controller.Reconcile
use dynamic_crd_watch.Handle
use dynamic_crd_watch.Base.{
  ℕ, ◌≡◌, refl, ap, sym, ◌∙◌, ◌⊎◌, inl, inr, ◌||◌, Option, none, some, str_eq, update, update-same,
  is_some, if◌then◌else◌, Bool-cases, Option-cases,
}
use dynamic_crd_watch.Handle.{WatchHandle, Watchers}
use dynamic_crd_watch.Watcher.{Request, World, try_get}
use dynamic_crd_watch.Widget.{Widget}
use dynamic_crd_watch.Controller.Backend.{Api, Lookup, found, failed}
use dynamic_crd_watch.Controller.Reconcile.{
  Result, no_result, Error, joined, State, directly, observe, conclude, reconcile_plugin,
  reconcile_theme, reconcile_widget, reconcile,
}
use dynamic_crd_watch.Controller.Reconciler.{
  WidgetReconciler, new_reconciler, set_watches, set_handles, try_get_plugin, try_get_theme,
  reads_of,
}

-- What is done at one address.
abbrev pub at : {A B : Type 0} → ℕ → (B → A × B) → (ℕ → B) → A × (ℕ → B)
at i f ws = let (a, w) = f (ws i) in (a, update ws i w)

Lookup-cases :
    {E A : Type 0} (l : Lookup E A) → ((a : A) × (l ≡ found a)) ⊎ ((e : E) × (l ≡ failed e))
Lookup-cases (found a) = inl (a, refl)
Lookup-cases (failed e) = inr (e, refl)

-- The outcome of a reconcile, the store and the watchers.
abbrev parts :
    (api : Api) (r : WidgetReconciler)
    → Option (Result × Option (Error api)) × State api (reads_of api r)
    → Option (Result × Option (Error api)) × api.Store × Watchers api.plugins × Watchers api.themes
parts api r (o, s) = (o, s.store, s.plugins, s.themes)

-- `Reconcile` of this reconciler.
abbrev pub by_reconciler :
    (api : Api)
    → WidgetReconciler
    → Request
    → api.Store
    → Watchers api.plugins
    → Watchers api.themes
    → Option (Result × Option (Error api)) × api.Store × Watchers api.plugins × Watchers api.themes
by_reconciler api r req store plugins themes = parts api r (
    reconcile api (reads_of api r) req
      (record { store = store; plugins = plugins; themes = themes }))

-- `Reconcile` on the watcher at `p` and the one at `t`, which are put back.
abbrev pub by_watchers :
    (api : Api)
    → ℕ
    → ℕ
    → Request
    → api.Store
    → Watchers api.plugins
    → Watchers api.themes
    → Option (Result × Option (Error api)) × api.Store × Watchers api.plugins × Watchers api.themes
by_watchers api p t req store plugins themes =
    let (o, d) =
      reconcile api (directly api) req
        (record { store = store; plugins = plugins p; themes = themes t }) in
    (o, d.store, update plugins p d.plugins, update themes t d.themes)

module _ (api : Api) (r : WidgetReconciler) (p t : ℕ) where
  -- The reconciler reads the plugins through the watcher at `p` and the themes through that at `t`.
  record IsAt : Type 0 where
    plugins :
        (key : Request) (obj : api.plugins.Object) (ws : Watchers api.plugins)
        → try_get_plugin api r key obj ws ≡ at p (try_get key obj) ws
    themes :
        (key : Request) (obj : api.themes.Object) (ws : Watchers api.themes)
        → try_get_theme api r key obj ws ≡ at t (try_get key obj) ws

  reconcile_plugin-at :
      IsAt
      → (widget : Widget) (ws : Watchers api.plugins)
      → reconcile_plugin api (reads_of api r) widget ws
        ≡ at p (reconcile_plugin api (directly api) widget) ws
  unfolding reconcile_plugin
  reconcile_plugin-at h widget ws =
      let key : Request = record { namespace = widget.namespace; name = widget.spec.plugin_ref } in
      elim (Bool-cases (str_eq widget.spec.plugin_ref "")) [
        | inl empty ↦ rw empty (ap (λ v. (_, v)) (sym (update-same ws p)))
        | inr refers ↦ rw (refers, h.plugins key api.new_plugin ws) refl
      ]

  reconcile_theme-at :
      IsAt
      → (widget : Widget) (ws : Watchers api.themes)
      → reconcile_theme api (reads_of api r) widget ws
        ≡ at t (reconcile_theme api (directly api) widget) ws
  unfolding reconcile_theme
  reconcile_theme-at h widget ws =
      let key : Request = record { namespace = widget.namespace; name = widget.spec.theme_ref } in
      elim (Bool-cases (str_eq widget.spec.theme_ref "")) [
        | inl empty ↦ rw empty (ap (λ v. (_, v)) (sym (update-same ws t)))
        | inr refers ↦ rw (refers, h.themes key api.new_theme ws) refl
      ]

  -- The state of the two watchers, and the state with them put back.
  abbrev pub seen : State api (reads_of api r) → State api (directly api)
  seen s = record { store = s.store; plugins = s.plugins p; themes = s.themes t }

  abbrev pub put :
      State api (reads_of api r) → State api (directly api) → State api (reads_of api r)
  put s d = record {
    store = d.store;
    plugins = update s.plugins p d.plugins;
    themes = update s.themes t d.themes;
  }

  conclude-at :
      (original widget : Widget) (a b : Result) (s : State api (reads_of api r))
      (plugins : World api.plugins) (themes : World api.themes)
      → let (o, d) =
          conclude api original widget a b
            (record { store = s.store; plugins = plugins; themes = themes }) in
        conclude api original widget a b
          (record s { plugins = update s.plugins p plugins; themes = update s.themes t themes })
        ≡ (o, put s d)
  unfolding conclude
  conclude-at original widget a b s plugins themes =
      elim (Bool-cases (api.deep_equal original.status widget.status)) [
        | inl equal ↦ rw equal refl
        | inr differ ↦ elim (Option-cases (api.patch_status s.store widget original).0) [
          | inl e ↦ rw (differ, e) refl
          | inr (x, e) ↦ rw (differ, e) refl
        ]
      ]

  reconcile_widget-at :
      IsAt
      → (original : Widget) (s : State api (reads_of api r))
      → reconcile_widget api (reads_of api r) original s
        ≡ (let (o, d) = reconcile_widget api (directly api) original (seen s) in (o, put s d))
  unfolding reconcile_widget
  reconcile_widget-at h original s =
      let plugins = reconcile_plugin-at h (observe api original) s.plugins in
      elim (Option-cases
        (reconcile_plugin api (directly api) (observe api original) (s.plugins p)).0) [
          | inl e ↦
              rw (reconcile_widget, plugins, e)
                (λ i. (
                  none,
                  record {
                    store = s.store;
                    plugins = (plugins i).1;
                    themes = sym (update-same s.themes t) i;
                  },
                ))
          | inr ((a, x, w₁), e) ↦
              let themes = reconcile_theme-at h w₁ s.themes in
              let moved : ◌≡◌ {A = State api (reads_of api r)} _ _ =
                λ i. record { store = s.store; plugins = (plugins i).1; themes = (themes i).1 } in
              elim (Option-cases (reconcile_theme api (directly api) w₁ (s.themes t)).0) [
                | inl f ↦ rw (reconcile_widget, plugins, e, themes, f) (ap (λ v. (none, v)) moved)
                | inr ((b, y, w₂), f) ↦ elim (Bool-cases (is_some x || is_some y)) [
                  | inl bad ↦
                      rw (reconcile_widget, plugins, e, themes, f, bad)
                        (ap (λ v. (some (no_result, some (joined x y)), v)) moved)
                  | inr fine ↦
                      rw (reconcile_widget, plugins, e, themes, f, fine)
                        (ap (λ v. let (o, d) = conclude api original w₂ a b v in (some o, d)) moved
                          ∙ ap (λ c. (some c.0, c.1)) (conclude-at original w₂ a b s _ _))
                ]
              ]
        ]

  reconcile-at :
      IsAt
      → (req : Request) (s : State api (reads_of api r))
      → reconcile api (reads_of api r) req s
        ≡ (let (o, d) = reconcile api (directly api) req (seen s) in (o, put s d))
  unfolding reconcile
  reconcile-at h req s = elim (Lookup-cases (api.get s.store req)) [
    | inl (w, e) ↦ rw (reconcile, e) (reconcile_widget-at h w s)
    | inr (x, e) ↦
        rw (reconcile, e)
          (λ i. (
            some (no_result, if api.not_found x then none else some (Reconcile.reading x)),
            record {
              store = s.store;
              plugins = sym (update-same s.plugins p) i;
              themes = sym (update-same s.themes t) i;
            },
          ))
  ]

module _ (api : Api) (p t : ℕ) where
  watches-IsAt : IsAt api (set_watches p t new_reconciler) p t
  unfolding set_watches try_get_plugin try_get_theme
  watches-IsAt = record { plugins = λ key obj ws. refl; themes = λ key obj ws. refl }

  handles-IsAt : IsAt api (set_handles p t new_reconciler) p t
  unfolding set_handles try_get_plugin try_get_theme Handle.try_get
  handles-IsAt = record { plugins = λ key obj ws. refl; themes = λ key obj ws. refl }

  -- Both set-ups give one behaviour: a reconcile of a reconciler that `SetupWithManager` gave the two
  -- watchers, and one of a reconciler that `SetupWithManagerUsingRegistry` gave the handles of these
  -- watchers, return the same and leave the same store and watchers; it is the reconcile on the two
  -- watchers themselves, and leaves every other watcher alone.
  pub reconcile_dispatched :
      (req : Request) (store : api.Store) (plugins : Watchers api.plugins)
      (themes : Watchers api.themes)
      → let expected = by_watchers api p t req store plugins themes in
        (by_reconciler api (set_watches p t new_reconciler) req store plugins themes ≡ expected)
        × (by_reconciler api (set_handles p t new_reconciler) req store plugins themes ≡ expected)
  reconcile_dispatched req store plugins themes = (
    ap (parts api _) (reconcile-at api (set_watches p t new_reconciler) p t watches-IsAt req _),
    ap (parts api _) (reconcile-at api (set_handles p t new_reconciler) p t handles-IsAt req _),
  )
