-- ===== src/Controller/Parents.antt =====
-- Which Widgets an event on a PluginConfig, a Theme or a CRD asks to reconcile.
use dynamic_crd_watch.Base.{
  String, ◌≡◌, ◌≢◌, ◌↔◌, refl, ap, sym, ◌∙◌, inl, inr, List, [], ◌∷◌, map, arith, str_eq, eq_iff,
  if◌then◌else◌, Bool-cases,
}
use dynamic_crd_watch.Watcher.{Request}
use dynamic_crd_watch.Widget.{Widget}
use dynamic_crd_watch.Controller.Backend.{found}
use dynamic_crd_watch.Controller.Mapping.{
  plugin_ref_field, theme_ref_field, has_plugin_ref_field, has_theme_ref_field, plugin_ref_values,
  theme_ref_values, has_plugin_ref_values, has_theme_ref_values, field_indexes, Among, Lister,
  key_of, to_requests, plugin_config_to_widgets, all_widgets_with_plugin_ref, theme_to_widgets,
  all_widgets_with_theme_ref,
}

Among-map :
    {A B : Type 0} (f : A → B) (l : List A) (a : A) (b : B)
    → b ≡ f a
    → Among a l
    → Among b (map f l)
Among-map f [] a b e m = elim m [ ]
Among-map f (x ∷ l) a b e (inl h) = inl (e ∙ ap f h)
Among-map f (x ∷ l) a b e (inr m) = inr (Among-map f l a b e m)

Among-map_inv :
    {A B : Type 0} (f : A → B) (l : List A) (b : B)
    → Among b (map f l)
    → (a : A) × Among a l × (b ≡ f a)
Among-map_inv f [] b m = elim m [ ]
Among-map_inv f (x ∷ l) b (inl e) = (x, inl refl, e)
Among-map_inv f (x ∷ l) b (inr m) = let (a, n, e) = Among-map_inv f l b m in (a, inr n, e)

-- The Widgets in the cache that a predicate holds of, as requests.
abbrev pub IsRequestFor : (lister : Lister) → lister.Cached → (Widget → Type 0) → Request → Type 0
IsRequestFor lister c p r = (w : Widget) × Among w (lister.widgets c) × p w × (r ≡ key_of w)

to_requests_iff :
    (lister : Lister) (c : lister.Cached) (field : String) (values : Widget → List String)
    → Among (field, values) field_indexes
    → (value : String) → (ws : List Widget) → lister.list c field value ≡ found ws
    → (r : Request)
    → Among r (to_requests lister (lister.list c field value))
      ↔ IsRequestFor lister c (λ w. Among value (values w)) r
unfolding to_requests
to_requests_iff lister c field values registered value ws e r =
    let matching = lister.matching c field values registered value ws e in
    rw e (
      λ m.
          let (w, n, f) = Among-map_inv key_of ws r m in
          let (here, match) = (matching w).0 n in (w, here, match, f),
      λ (w, here, match, f). Among-map key_of ws w r f ((matching w).1 (here, match)),
    )

-- The values that the two indexes give a reference: its name, or the mark that there is one.
name_values_iff :
    (ref name : String)
    → Among name (if str_eq ref "" then [] else ref ∷ []) ↔ ((ref ≡ name) × (name ≢ ""))
name_values_iff ref name = elim (Bool-cases (str_eq ref "")) [
  | inl e ↦ rw e (λ m. elim m [ ], λ (f, n). elim (n (sym f ∙ (eq_iff ref "").0 e)) [ ])
  | inr e ↦ rw e (λ m. ground (arith, eq_iff ref ""), λ (f, n). inl (sym f))
]

mark_values_iff :
    (ref : String)
    → Among {A = String} "true" (if str_eq ref "" then [] else "true" ∷ []) ↔ (ref ≢ "")
mark_values_iff ref = elim (Bool-cases (str_eq ref "")) [
  | inl e ↦ rw e (λ m. elim m [ ], λ n. elim (n ((eq_iff ref "").0 e)) [ ])
  | inr e ↦ rw e (λ m. ground (arith, eq_iff ref ""), λ n. inl refl)
]

IsRequestFor-iff :
    (lister : Lister) (c : lister.Cached) (r : Request) (p q : Widget → Type 0)
    → ((w : Widget) → p w ↔ q w)
    → IsRequestFor lister c p r ↔ IsRequestFor lister c q r
IsRequestFor-iff lister c r p q h = (
  λ (w, here, holds, e). (w, here, (h w).0 holds, e),
  λ (w, here, holds, e). (w, here, (h w).1 holds, e),
)

iff_trans : {A B C : Type 0} → A ↔ B → B ↔ C → A ↔ C
iff_trans (f, g) (f', g') = (λ a. f' (f a), λ c. g (g' c))

abbrev pub PluginRequests : (lister : Lister) → String → lister.Cached → Request → Type 0
PluginRequests lister name c r =
    (Among r (plugin_config_to_widgets lister name c)
      ↔ IsRequestFor lister c (λ w. (w.spec.plugin_ref ≡ name) × (name ≢ "")) r)
    × (Among r (all_widgets_with_plugin_ref lister c)
        ↔ IsRequestFor lister c (λ w. w.spec.plugin_ref ≢ "") r)

pub PluginRequests-iff :
    (lister : Lister) (name : String) (c : lister.Cached) (named any : List Widget)
    → lister.list c plugin_ref_field name ≡ found named
    → lister.list c has_plugin_ref_field "true" ≡ found any
    → (r : Request) → PluginRequests lister name c r
unfolding plugin_config_to_widgets all_widgets_with_plugin_ref plugin_ref_values
    has_plugin_ref_values
PluginRequests-iff lister name c named any e f r = (
  iff_trans (to_requests_iff lister c _ plugin_ref_values (inl refl) name named e r)
      (IsRequestFor-iff lister c r _ _ (λ w. name_values_iff w.spec.plugin_ref name)),
  iff_trans (to_requests_iff lister c _ has_plugin_ref_values (inr (inr (inl refl))) "true" any f r)
      (IsRequestFor-iff lister c r _ _ (λ w. mark_values_iff w.spec.plugin_ref)),
)

abbrev pub ThemeRequests : (lister : Lister) → String → lister.Cached → Request → Type 0
ThemeRequests lister name c r =
    (Among r (theme_to_widgets lister name c)
      ↔ IsRequestFor lister c (λ w. (w.spec.theme_ref ≡ name) × (name ≢ "")) r)
    × (Among r (all_widgets_with_theme_ref lister c)
        ↔ IsRequestFor lister c (λ w. w.spec.theme_ref ≢ "") r)

pub ThemeRequests-iff :
    (lister : Lister) (name : String) (c : lister.Cached) (named any : List Widget)
    → lister.list c theme_ref_field name ≡ found named
    → lister.list c has_theme_ref_field "true" ≡ found any
    → (r : Request) → ThemeRequests lister name c r
unfolding theme_to_widgets all_widgets_with_theme_ref theme_ref_values has_theme_ref_values
ThemeRequests-iff lister name c named any e f r = (
  iff_trans (to_requests_iff lister c _ theme_ref_values (inr (inl refl)) name named e r)
      (IsRequestFor-iff lister c r _ _ (λ w. name_values_iff w.spec.theme_ref name)),
  iff_trans
      (to_requests_iff lister c _ has_theme_ref_values (inr (inr (inr (inl refl)))) "true" any f r)
      (IsRequestFor-iff lister c r _ _ (λ w. mark_values_iff w.spec.theme_ref)),
)

-- Where the lists do not fail, an event on a PluginConfig asks for exactly the cached Widgets whose
-- `pluginRef` is its name (no Widget, for an empty name), and a change of its CRD for exactly those
-- with a `pluginRef` at all; and in the same way for Themes and `themeRef`.
pub requests_iff :
    (lister : Lister) (c : lister.Cached) (plugin theme : String)
    (with_plugin any_plugin with_theme any_theme : List Widget)
    → lister.list c plugin_ref_field plugin ≡ found with_plugin
    → lister.list c has_plugin_ref_field "true" ≡ found any_plugin
    → lister.list c theme_ref_field theme ≡ found with_theme
    → lister.list c has_theme_ref_field "true" ≡ found any_theme
    → (r : Request) → PluginRequests lister plugin c r × ThemeRequests lister theme c r
requests_iff lister c plugin theme l₁ l₂ l₃ l₄ e₁ e₂ e₃ e₄ r = (
  PluginRequests-iff lister plugin c l₁ l₂ e₁ e₂ r,
  ThemeRequests-iff lister theme c l₃ l₄ e₃ e₄ r,
)
