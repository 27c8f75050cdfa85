-- ===== src/Controller/Outcome.antt =====
-- What a whole reconcile of internal/controller/widget_controller.go, `Reconcile`, returns and writes.
use dynamic_crd_watch.Base.{
  ◌≡◌, ◌≢◌, ◌⊎◌, refl, inl, inr, true, ◌||◌, Option, none, some, arith, is_some, if◌then◌else◌,
  Bool-cases,
}
use dynamic_crd_watch.Watcher.{Request}
use dynamic_crd_watch.Widget.{Widget}
use dynamic_crd_watch.Controller.Backend.{Api, found}
use dynamic_crd_watch.Controller.Reconcile.{
  directly, Result, no_result, merge_one, merge_from, merge_results, Error, joined, patching, State,
  reconcile_plugin, reconcile_theme, observe, conclude, reconcile_widget, reconcile,
}
use dynamic_crd_watch.Controller.Plugins.{plugin_error, PluginReport, reconcile_plugin-reports}
use dynamic_crd_watch.Controller.Themes.{theme_error, ThemeReport, reconcile_theme-reports}

module _ (api : Api) where
  abbrev patch_error : Option api.Error → Option (Error api)
  patch_error none = none
  patch_error (some e) = some (patching e)

  -- How a reconcile ends whose parts had these errors, and left `widget`. An error ends it with
  -- nothing written. Else the status of `original` is patched to that of `widget` if they differ.
  abbrev pub Concluded :
      Option api.plugins.Error
      → Option api.themes.Error
      → Widget
      → Widget
      → State api (directly api)
      → Option (Result × Option (Error api)) × State api (directly api)
      → Type 0
  Concluded plugin_err theme_err original widget s (outcome, s') =
      let (failure, store) = api.patch_status s.store widget original in
      if is_some plugin_err || is_some theme_err
      then (outcome ≡ some (no_result, some (joined plugin_err theme_err))) × (s'.store ≡ s.store)
      else ((original.status ≡ widget.status)
          × (outcome ≡ some (no_result, none))
          × (s'.store ≡ s.store))
      ⊎ ((original.status ≢ widget.status)
          × (outcome ≡ some (no_result, patch_error failure))
          × (s'.store ≡ store))

  reconcile_widget-concludes :
      (original widget₁ widget₂ : Widget) (plugin_err : Option api.plugins.Error)
      (theme_err : Option api.themes.Error) (s : State api (directly api))
      → (reconcile_plugin api (directly api) (observe api original) s.plugins).0
        ≡ some (no_result, plugin_err, widget₁)
      → (reconcile_theme api (directly api) widget₁ s.themes).0
        ≡ some (no_result, theme_err, widget₂)
      → Concluded plugin_err theme_err original widget₂ s
          (reconcile_widget api (directly api) original s)
  unfolding reconcile_widget conclude merge_results merge_from merge_one
  reconcile_widget-concludes original widget₁ widget₂ plugin_err theme_err s p t =
      let same = api.deep_equal_iff original.status widget₂.status in
      elim (Bool-cases (is_some plugin_err || is_some theme_err)) [
        | inl bad ↦ ground arith
        | inr fine ↦ elim (Bool-cases (api.deep_equal original.status widget₂.status)) [
          | inl equal ↦ rw fine (inl (same.0 equal, ground arith, ground arith))
          | inr differ ↦ rw fine (inr ((λ e. ground arith), ground arith, ground arith))
        ]
      ]

  reconcile-found :
      (req : Request) (original : Widget) (s : State api (directly api))
      → api.get s.store req ≡ found original
      → reconcile api (directly api) req s ≡ reconcile_widget api (directly api) original s
  unfolding reconcile
  reconcile-found req original s e = rw (e, reconcile) refl

  -- A reconcile of a Widget with both watchers started returns. The plugin's part reports on the
  -- Widget with its observed generation set, the theme's part on what that leaves. If one of them
  -- ends with an error, so does the reconcile, and nothing is written; else the status is patched
  -- exactly if it changed, the error is that of the patch, and no requeue is asked for.
  pub reconcile_reports :
      (req : Request) (original : Widget) (s : State api (directly api))
      → api.get s.store req ≡ found original
      → s.plugins.started ≡ true
      → s.themes.started ≡ true
      → (widget₁ widget₂ : Widget) × PluginReport api (observe api original) s.plugins widget₁
        × ThemeReport api widget₁ s.themes widget₂
        × Concluded
            (plugin_error api (observe api original) s.plugins)
            (theme_error api widget₁ s.themes)
            original
            widget₂
            s
            (reconcile api (directly api) req s)
  reconcile_reports req original s e p t =
      let (w₁, plugin, plugin_report) =
        reconcile_plugin-reports api (observe api original) s.plugins p in
      let (w₂, theme, theme_report) = reconcile_theme-reports api w₁ s.themes t in
      let concluded = reconcile_widget-concludes original w₁ w₂ _ _ s plugin theme in
      (w₁, w₂, plugin_report, theme_report, rw (reconcile-found req original s e) concluded)
