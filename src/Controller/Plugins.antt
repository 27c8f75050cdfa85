-- ===== src/Controller/Plugins.antt =====
-- What the plugin's part of a reconcile, `reconcilePlugin` of internal/controller/widget_controller.go,
-- reports in the status of a Widget.
use dynamic_crd_watch.Condition.{condition_true, condition_false}
use dynamic_crd_watch.Base.{
  ◌≡◌, refl, inl, inr, Bool, true, false, not, ◌||◌, Option, none, some, arith, str_eq,
  if◌then◌else◌, Bool-cases, Option-cases,
}
use dynamic_crd_watch.Watcher.{Request, World}
use dynamic_crd_watch.Watcher.Reading.{is_readable, try_get-contract}
use dynamic_crd_watch.Widget.Laws.{
  plugin_condition, theme_condition, Agree, PluginSays, plugin_marks,
}
use dynamic_crd_watch.Widget.{
  Widget, mark_plugin_applied, mark_plugin_crd_not_available, mark_plugin_not_found,
  remove_plugin_condition,
}
use dynamic_crd_watch.Controller.Backend.{Api}
use dynamic_crd_watch.Controller.Reconcile.{directly, no_result, apply_plugin, reconcile_plugin}

module _ (api : Api) where
  open api use {meta}

  -- The read that a Widget's reference to a plugin stands for.
  abbrev pub read_plugin :
      Widget → World api.plugins → Option api.plugins.Error × api.plugins.Object
  read_plugin widget w =
      api.plugins.get w.outside
        (record { namespace = widget.namespace; name = widget.spec.plugin_ref }) api.new_plugin

  -- The error that the plugin's part of a reconcile ends with: the cache's, if the watcher can be read
  -- and the error is another than that the plugin is not found.
  abbrev pub plugin_error : Widget → World api.plugins → Option api.plugins.Error
  plugin_error widget w = elim (read_plugin widget w).0 [
    | none ↦ none
    | some e ↦
        if str_eq widget.spec.plugin_ref "" || not (is_readable w) || api.plugin_not_found e
        then none
        else some e
  ]

  -- The outcomes of the plugin's part, by whether there is no reference, whether the watcher can be
  -- read, and what the read returns. Where the read fails, all is left as it is.
  abbrev pub PluginOutcome : Widget → Bool → Bool → Option api.plugins.Error → Widget → Type 0
  PluginOutcome widget true _ _ widget' =
      (plugin_condition meta widget' ≡ none)
      × (theme_condition meta widget' ≡ theme_condition meta widget)
      × Agree meta widget widget'
  PluginOutcome widget false false _ widget' =
      PluginSays meta widget condition_false "PluginCRDNotAvailable" widget'
  PluginOutcome widget false true none widget' =
      PluginSays meta widget condition_true "PluginApplied" widget'
  PluginOutcome widget false true (some e) widget' =
      if api.plugin_not_found e
      then PluginSays meta widget condition_false "PluginNotFound" widget'
      else widget' ≡ widget

  -- What is in `widget'` after the plugin's part.
  abbrev pub PluginReport : Widget → World api.plugins → Widget → Type 0
  PluginReport widget w widget' =
      PluginOutcome widget (str_eq widget.spec.plugin_ref "") (is_readable w)
        (read_plugin widget w).0 widget'

  abbrev plugin_marked :
      Widget → Bool → Bool → Option api.plugins.Error → api.plugins.Object → Widget
  plugin_marked widget true _ _ _ = remove_plugin_condition meta widget
  plugin_marked widget false false _ _ = mark_plugin_crd_not_available meta widget
  plugin_marked widget false true none plugin = mark_plugin_applied meta (api.setting plugin) widget
  plugin_marked widget false true (some e) _ =
      if api.plugin_not_found e
      then mark_plugin_not_found meta widget.spec.plugin_ref widget
      else widget

  plugin_marked-reports :
      (widget : Widget) (empty readable : Bool) (e : Option api.plugins.Error)
      (plugin : api.plugins.Object)
      → PluginOutcome widget empty readable e (plugin_marked widget empty readable e plugin)
  plugin_marked-reports widget true _ _ _ =
      let (_, _, _, _, _, gone, same, agree) = plugin_marks meta widget "" in (gone, same, agree)
  plugin_marked-reports widget false false _ _ =
      let (_, missing, _, _, _, _, _, _) = plugin_marks meta widget "" in missing
  plugin_marked-reports widget false true none plugin =
      let (applied, _, _, _, _, _, _, _) = plugin_marks meta widget (api.setting plugin) in applied
  plugin_marked-reports widget false true (some x) _ = elim (Bool-cases (api.plugin_not_found x)) [
    | inl h ↦
        let (_, _, unknown, _, _, _, _, _) = plugin_marks meta widget widget.spec.plugin_ref in
        rw h unknown
    | inr h ↦ rw h refl
  ]

  reconcile_plugin-marks :
      (widget : Widget) (w : World api.plugins)
      → w.started ≡ true
      → (reconcile_plugin api (directly api) widget w).0
        ≡ some (
          no_result,
          plugin_error widget w,
          plugin_marked widget
              (str_eq widget.spec.plugin_ref "")
              (is_readable w)
              (read_plugin widget w).0
              (read_plugin widget w).1,
        )
  unfolding reconcile_plugin apply_plugin
  reconcile_plugin-marks widget w started =
      let key : Request = record { namespace = widget.namespace; name = widget.spec.plugin_ref } in
      let contract = try_get-contract key api.new_plugin w in
      elim (Option-cases (read_plugin widget w).0) [
        | inl e ↦ ground arith
        | inr (x, e) ↦ ground arith
      ]

  -- With a started watcher, the plugin's part of a reconcile returns with the error of the read (none
  -- where there is no reference, no readable watcher or no such plugin), reports what was read in the
  -- condition PluginReady, and leaves ThemeReady and the rest of the Widget as they were.
  pub reconcile_plugin-reports :
      (widget : Widget) (w : World api.plugins)
      → w.started ≡ true
      → (widget' : Widget) × ((reconcile_plugin api (directly api) widget w).0
          ≡ some (no_result, plugin_error widget w, widget'))
        × PluginReport widget w widget'
  reconcile_plugin-reports widget w started =
      (_, reconcile_plugin-marks widget w started, plugin_marked-reports widget _ _ _ _)
