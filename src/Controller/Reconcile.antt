-- ===== src/Controller/Reconcile.antt =====
-- internal/controller/widget_controller.go: `Reconcile`, `reconcilePlugin`, `reconcileTheme` and
-- `mergeResults`, over the reads `tryGetPlugin` and `tryGetTheme`, which are the reconciler's.
use dynamic_crd_watch.Base.{
  ℕ, Bool, not, ◌&&◌, ◌||◌, Option, none, some, List, [], ◌∷◌, str_eq, ltb, ◌==◌, is_some,
  if◌then◌else◌,
}
use dynamic_crd_watch.Watcher.{Request, World, Tried, panicked, result, try_get}
use dynamic_crd_watch.Widget.{
  Widget, mark_plugin_applied, mark_plugin_crd_not_available, mark_plugin_not_found,
  remove_plugin_condition, mark_theme_applied, mark_theme_crd_not_available, mark_theme_not_found,
  remove_theme_condition,
}
use dynamic_crd_watch.Controller.Backend.{Api, found, failed}

-- `ctrl.Result`, with the field that the code sets.
pub record Result : Type 0 where
  pub requeue_after : ℕ

abbrev pub no_result : Result
no_result = record { requeue_after = 0 }

-- One round of the loop of `mergeResults`.
unfoldable pub merge_one : Result → Result → Result
merge_one merged r =
    if ltb 0 r.requeue_after
      && (merged.requeue_after == 0 || ltb r.requeue_after merged.requeue_after)
    then record { requeue_after = r.requeue_after }
    else merged

unfoldable pub merge_from : Result → List Result → Result
unfolding merge_one
merge_from merged [] = merged
merge_from merged (r ∷ rs) = merge_from (merge_one merged r) rs

unfoldable pub merge_results : List Result → Result
unfolding merge_from
merge_results results = merge_from no_result results

module _ (api : Api) where
  -- The reconciler's errors: of the first read, `errors.Join` of the two parts', of the patch.
  pub data Error : Type 0 where
    reading : api.Error → Error
    joined : Option api.plugins.Error → Option api.themes.Error → Error
    patching : api.Error → Error

  -- `tryGetPlugin` and `tryGetTheme`, with the watchers that they read and change.
  pub record Reads : Type 1 where
    pub Plugins : Type 0
    pub Themes : Type 0
    pub try_get_plugin :
        Request
        → api.plugins.Object
        → Plugins
        → Tried api.plugins.Error api.plugins.Object × Plugins
    pub try_get_theme :
        Request → api.themes.Object → Themes → Tried api.themes.Error api.themes.Object × Themes

  -- The reads of two watchers that are given themselves.
  abbrev pub directly : Reads
  directly = record {
    Plugins = World api.plugins;
    Themes = World api.themes;
    try_get_plugin = try_get;
    try_get_theme = try_get;
  }

  -- What a reconcile reads and changes.
  pub record State (reads : Reads) : Type 0 where
    pub store : api.Store
    pub plugins : reads.Plugins
    pub themes : reads.Themes

  -- `reconcilePlugin` after `tryGetPlugin`. Its result is always the empty one.
  unfoldable pub apply_plugin :
      Widget
      → Bool
      → Option api.plugins.Error
      → api.plugins.Object
      → Option api.plugins.Error × Widget
  apply_plugin widget available (some e) plugin =
      if api.plugin_not_found e
      then (none, mark_plugin_not_found api.meta widget.spec.plugin_ref widget)
      else (some e, widget)
  apply_plugin widget available none plugin =
      if not available
      then (none, mark_plugin_crd_not_available api.meta widget)
      else (none, mark_plugin_applied api.meta (api.setting plugin) widget)

  -- `none` is the panic of `TryGet` before `Start`.
  unfoldable pub reconcile_plugin :
      (reads : Reads)
      → Widget
      → reads.Plugins
      → Option (Result × Option api.plugins.Error × Widget) × reads.Plugins
  unfolding apply_plugin
  reconcile_plugin reads widget w =
      let key : Request = record { namespace = widget.namespace; name = widget.spec.plugin_ref } in
      let (tried, v) = reads.try_get_plugin key api.new_plugin w in
      let outcome : Option (Result × Option api.plugins.Error × Widget) = elim tried [
        | panicked ↦ none
        | result available err plugin ↦
            let (e, widget') = apply_plugin widget available err plugin in
            some (no_result, e, widget')
      ] in
      if str_eq widget.spec.plugin_ref ""
      then (some (no_result, none, remove_plugin_condition api.meta widget), w)
      else (outcome, v)

  -- `reconcileTheme` after `tryGetTheme`.
  unfoldable pub apply_theme :
      Widget → Bool → Option api.themes.Error → api.themes.Object → Option api.themes.Error × Widget
  apply_theme widget available (some e) theme =
      if api.theme_not_found e
      then (none, mark_theme_not_found api.meta widget.spec.theme_ref widget)
      else (some e, widget)
  apply_theme widget available none theme =
      if not available
      then (none, mark_theme_crd_not_available api.meta widget)
      else (none, mark_theme_applied api.meta (api.color_scheme theme) widget)

  unfoldable pub reconcile_theme :
      (reads : Reads)
      → Widget
      → reads.Themes
      → Option (Result × Option api.themes.Error × Widget) × reads.Themes
  unfolding apply_theme
  reconcile_theme reads widget w =
      let key : Request = record { namespace = widget.namespace; name = widget.spec.theme_ref } in
      let (tried, v) = reads.try_get_theme key api.new_theme w in
      let outcome : Option (Result × Option api.themes.Error × Widget) = elim tried [
        | panicked ↦ none
        | result available err theme ↦
            let (e, widget') = apply_theme widget available err theme in
            some (no_result, e, widget')
      ] in
      if str_eq widget.spec.theme_ref ""
      then (some (no_result, none, remove_theme_condition api.meta widget), w)
      else (outcome, v)

  -- `widget.Status.ObservedGeneration = widget.Generation`
  abbrev pub observe : Widget → Widget
  observe widget = record widget {
    status = record (widget.status) { observed_generation = widget.generation };
  }

  -- The end of `Reconcile`: the patch, if the status changed, and the merged result.
  unfoldable pub conclude :
      {reads : Reads}
      → Widget
      → Widget
      → Result
      → Result
      → State reads
      → (Result × Option Error) × State reads
  conclude original widget plugin_result theme_result s =
      let (failure, store) = api.patch_status s.store widget original in
      let merged : Result = merge_results (plugin_result ∷ theme_result ∷ []) in
      if api.deep_equal original.status widget.status then ((merged, none), s) else elim failure [
        | none ↦ ((merged, none), record s { store = store })
        | some e ↦ ((no_result, some (patching e)), record s { store = store })
      ]

  -- `Reconcile` once the widget is read.
  unfoldable pub reconcile_widget :
      (reads : Reads) → Widget → State reads → Option (Result × Option Error) × State reads
  unfolding reconcile_plugin reconcile_theme conclude
  reconcile_widget reads original s =
      let (p, plugins) = reconcile_plugin reads (observe original) s.plugins in
      let s₁ : State reads = record s { plugins = plugins } in
      elim p [
        | none ↦ (none, s₁)
        | some (plugin_result, plugin_err, widget₁) ↦
            let (t, themes) = reconcile_theme reads widget₁ s.themes in
            let s₂ : State reads = record s₁ { themes = themes } in
            elim t [
              | none ↦ (none, s₂)
              | some (theme_result, theme_err, widget₂) ↦
                  let (outcome, s₃) = conclude original widget₂ plugin_result theme_result s₂ in
                  if is_some plugin_err || is_some theme_err
                  then (some (no_result, some (joined plugin_err theme_err)), s₂)
                  else (some outcome, s₃)
            ]
      ]

  unfoldable pub reconcile :
      (reads : Reads) → Request → State reads → Option (Result × Option Error) × State reads
  unfolding reconcile_widget
  reconcile reads req s = elim (api.get s.store req) [
    | failed e ↦ (some (no_result, if api.not_found e then none else some (reading e)), s)
    | found widget ↦ reconcile_widget reads widget s
  ]
