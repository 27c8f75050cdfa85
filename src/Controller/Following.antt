-- ===== src/Controller/Following.antt =====
-- The controller of internal/controller/widget_controller.go follows the watchers of
-- pkg/dynamicwatch/watcher.go: what a reconcile reports after the CRD went away, or came.
use mathlib.Core.Path.{subst}
use dynamic_crd_watch.Condition.{condition_true, condition_false}
use dynamic_crd_watch.Base.{
  ◌≡◌, refl, inl, inr, Bool, true, false, Option, none, some, arith, str_eq, Option-cases, ap, ◌∙◌,
  ◌⊎◌,
}
use dynamic_crd_watch.Crd.{Crd, crd_removed}
use dynamic_crd_watch.Watcher.{Runtime, World, on_crd_change, ensure, wait_for_sync_and_requeue}
use dynamic_crd_watch.Watcher.Reading.{is_readable}
use dynamic_crd_watch.Watcher.Events.{removal_complete}
use dynamic_crd_watch.Watcher.Recovery.{install_makes_ready}
use dynamic_crd_watch.Widget.{Widget}
use dynamic_crd_watch.Widget.Laws.{PluginSays}
use dynamic_crd_watch.Controller.Backend.{Api}
use dynamic_crd_watch.Controller.Reconcile.{directly, no_result, reconcile_plugin}
use dynamic_crd_watch.Controller.Plugins.{
  read_plugin, plugin_error, PluginOutcome, PluginReport, reconcile_plugin-reports,
}

on_crd_change-started :
    {rt : Runtime} {Spec : Type 0} (crd : Crd Spec) (w : World rt)
    → (on_crd_change crd w).1.started ≡ w.started
unfolding on_crd_change
on_crd_change-started crd w = ground arith

ensured-ready :
    {rt : Runtime} (w : World rt)
    → (ensure w).0 ≡ some true
    → (w.started ≡ true) × (w.active ≡ true)
unfolding ensure
ensured-ready w e = ground arith

module _ (api : Api) (widget : Widget) (refers : str_eq widget.spec.plugin_ref "" ≡ false) where
  -- What a report says of a Widget with a reference.
  reported :
      (w : World api.plugins) (widget' : Widget) (readable : Bool) (e : Option api.plugins.Error)
      → is_readable w ≡ readable
      → (read_plugin api widget w).0 ≡ e
      → PluginReport api widget w widget'
      → PluginOutcome api widget false readable e widget'
  reported w widget' readable e readable_is e_is report =
      subst (λ x. PluginOutcome api widget false readable x widget') e_is
        (subst (λ b. PluginOutcome api widget false b (read_plugin api widget w).0 widget')
          readable_is
          (subst
            (λ b. PluginOutcome api widget b (is_readable w) (read_plugin api widget w).0 widget')
            refers report))

  no_error :
      (w : World api.plugins)
      → is_readable w ≡ false ⊎ ((read_plugin api widget w).0 ≡ none)
      → plugin_error api widget w ≡ none
  no_error w (inl unreadable) = elim (Option-cases (read_plugin api widget w).0) [
    | inl e ↦ ground arith
    | inr (x, e) ↦ ground arith
  ]
  no_error w (inr e) = ground arith

  -- Once the CRD of the PluginConfigs goes away, whatever the started watcher was doing, the plugin's
  -- part of a reconcile of a Widget with a reference ends without an error and reports that the CRD
  -- is not available.
  pub removal-PluginSays :
      {Spec : Type 0} (crd : Crd Spec) (w : World api.plugins)
      → crd_removed crd ≡ true
      → w.started ≡ true
      → let v = (on_crd_change crd w).1 in
        (widget' : Widget) × ((reconcile_plugin api (directly api) widget v).0
          ≡ some (no_result, none, widget'))
        × PluginSays api.meta widget condition_false "PluginCRDNotAvailable" widget'
  removal-PluginSays crd w gone started =
      let v : World api.plugins = (on_crd_change crd w).1 in
      let (_, inactive, _, _, _, _, _, _) = removal_complete crd w 0 gone in
      let unreadable : is_readable v ≡ false = ground arith in
      let (widget', e, report) =
        reconcile_plugin-reports api widget v (on_crd_change-started crd w ∙ started) in
      (
        widget',
        e ∙ ap (λ x. some (no_result, x, widget')) (no_error v (inl unreadable)),
        reported v widget' false _ unreadable refl report,
      )

  -- For a started watcher that knows nothing of the CRD of the PluginConfigs, and whose source starts:
  -- once the CRD comes, the `Ensure` of a reconcile has registered the watch, and its waiter's sync
  -- has succeeded, if the informer is there and the cache has the object, the plugin's part of the
  -- next reconcile of a Widget with a reference ends without an error and reports that the plugin
  -- is applied.
  pub install-PluginSays :
      {Spec : Type 0} (crd : Crd Spec) (w v : World api.plugins)
      → crd_removed crd ≡ false
      → (w.started ≡ true) × (w.crd_exists ≡ false) × (w.watching ≡ false) × (w.active ≡ false)
      → (api.plugins.start_source w.outside).0 ≡ none
      → wait_for_sync_and_requeue w.next_waiter w.generation none (ensure (on_crd_change crd w).1).1
        ≡ v
      → api.plugins.has_informer v.outside ≡ true
      → (read_plugin api widget v).0 ≡ none
      → (widget' : Widget) × ((reconcile_plugin api (directly api) widget v).0
          ≡ some (no_result, none, widget'))
        × PluginSays api.meta widget condition_true "PluginApplied" widget'
  install-PluginSays crd w v usable quiet starts synced there reads =
      let (_, _, _, _, ensured, _, _) = install_makes_ready crd w usable quiet starts in
      let (started, active) =
        ensured-ready v (subst (λ x. (ensure x).0 ≡ some true) synced ensured) in
      let readable : is_readable v ≡ true = ground arith in
      let (widget', e, report) = reconcile_plugin-reports api widget v started in
      (
        widget',
        e ∙ ap (λ x. some (no_result, x, widget')) (no_error v (inr reads)),
        reported v widget' true none readable reads report,
      )
