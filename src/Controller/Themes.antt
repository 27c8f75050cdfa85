-- ===== src/Controller/Themes.antt =====
-- What the theme's part of a reconcile, `reconcileTheme` of internal/controller/widget_controller.go,
-- reports in the status of a Widget.
use dynamic_crd_watch.Condition.{condition_true, condition_false}
use dynamic_crd_watch.Base.{
  ◌≡◌, refl, inl, inr, Bool, true, false, not, ◌||◌, Option, none, some, arith, str_eq,
  if◌then◌else◌, Bool-cases, Option-cases,
}
use dynamic_crd_watch.Watcher.{Request, World}
use dynamic_crd_watch.Watcher.Reading.{is_readable, try_get-contract}
use dynamic_crd_watch.Widget.Laws.{plugin_condition, theme_condition, Agree, ThemeSays, theme_marks}
use dynamic_crd_watch.Widget.{
  Widget, mark_theme_applied, mark_theme_crd_not_available, mark_theme_not_found,
  remove_theme_condition,
}
use dynamic_crd_watch.Controller.Backend.{Api}
use dynamic_crd_watch.Controller.Reconcile.{directly, no_result, apply_theme, reconcile_theme}

module _ (api : Api) where
  open api use {meta}

  -- The read that a Widget's reference to a theme stands for.
  abbrev read_theme : Widget → World api.themes → Option api.themes.Error × api.themes.Object
  read_theme widget w =
      api.themes.get w.outside
        (record { namespace = widget.namespace; name = widget.spec.theme_ref }) api.new_theme

  -- The error that the theme's part of a reconcile ends with: the cache's, if the watcher can be read
  -- and the error is another than that the theme is not found.
  abbrev pub theme_error : Widget → World api.themes → Option api.themes.Error
  theme_error widget w = elim (read_theme widget w).0 [
    | none ↦ none
    | some e ↦
        if str_eq widget.spec.theme_ref "" || not (is_readable w) || api.theme_not_found e
        then none
        else some e
  ]

  -- The outcomes of the theme's part, by whether there is no reference, whether the watcher can be
  -- read, and what the read returns. Where the read fails, all is left as it is.
  abbrev ThemeOutcome : Widget → Bool → Bool → Option api.themes.Error → Widget → Type 0
  ThemeOutcome widget true _ _ widget' =
      (theme_condition meta widget' ≡ none)
      × (plugin_condition meta widget' ≡ plugin_condition meta widget)
      × Agree meta widget widget'
  ThemeOutcome widget false false _ widget' =
      ThemeSays meta widget condition_false "ThemeCRDNotAvailable" widget'
  ThemeOutcome widget false true none widget' =
      ThemeSays meta widget condition_true "ThemeApplied" widget'
  ThemeOutcome widget false true (some e) widget' =
      if api.theme_not_found e
      then ThemeSays meta widget condition_false "ThemeNotFound" widget'
      else widget' ≡ widget

  -- What is in `widget'` after the theme's part.
  abbrev pub ThemeReport : Widget → World api.themes → Widget → Type 0
  ThemeReport widget w widget' =
      ThemeOutcome widget (str_eq widget.spec.theme_ref "") (is_readable w) (read_theme widget w).0
        widget'

  abbrev theme_marked : Widget → Bool → Bool → Option api.themes.Error → api.themes.Object → Widget
  theme_marked widget true _ _ _ = remove_theme_condition meta widget
  theme_marked widget false false _ _ = mark_theme_crd_not_available meta widget
  theme_marked widget false true none theme =
      mark_theme_applied meta (api.color_scheme theme) widget
  theme_marked widget false true (some e) _ =
      if api.theme_not_found e
      then mark_theme_not_found meta widget.spec.theme_ref widget
      else widget

  theme_marked-reports :
      (widget : Widget) (empty readable : Bool) (e : Option api.themes.Error)
      (theme : api.themes.Object)
      → ThemeOutcome widget empty readable e (theme_marked widget empty readable e theme)
  theme_marked-reports widget true _ _ _ =
      let (_, _, _, _, _, gone, same, agree) = theme_marks meta widget "" in (gone, same, agree)
  theme_marked-reports widget false false _ _ =
      let (_, missing, _, _, _, _, _, _) = theme_marks meta widget "" in missing
  theme_marked-reports widget false true none theme =
      let (applied, _, _, _, _, _, _, _) = theme_marks meta widget (api.color_scheme theme) in
      applied
  theme_marked-reports widget false true (some x) _ = elim (Bool-cases (api.theme_not_found x)) [
    | inl h ↦
        let (_, _, unknown, _, _, _, _, _) = theme_marks meta widget widget.spec.theme_ref in
        rw h unknown
    | inr h ↦ rw h refl
  ]

  reconcile_theme-marks :
      (widget : Widget) (w : World api.themes)
      → w.started ≡ true
      → (reconcile_theme api (directly api) widget w).0
        ≡ some (
          no_result,
          theme_error widget w,
          theme_marked widget
              (str_eq widget.spec.theme_ref "")
              (is_readable w)
              (read_theme widget w).0
              (read_theme widget w).1,
        )
  unfolding reconcile_theme apply_theme
  reconcile_theme-marks widget w started =
      let key : Request = record { namespace = widget.namespace; name = widget.spec.theme_ref } in
      let contract = try_get-contract key api.new_theme w in
      elim (Option-cases (read_theme widget w).0) [
        | inl e ↦ ground arith
        | inr (x, e) ↦ ground arith
      ]

  -- With a started watcher, the theme's part of a reconcile returns with the error of the read (none
  -- where there is no reference, no readable watcher or no such theme), reports what was read in the
  -- condition ThemeReady, and leaves PluginReady and the rest of the Widget as they were.
  pub reconcile_theme-reports :
      (widget : Widget) (w : World api.themes)
      → w.started ≡ true
      → (widget' : Widget) × ((reconcile_theme api (directly api) widget w).0
          ≡ some (no_result, theme_error widget w, widget'))
        × ThemeReport widget w widget'
  reconcile_theme-reports widget w started =
      (_, reconcile_theme-marks widget w started, theme_marked-reports widget _ _ _ _)
