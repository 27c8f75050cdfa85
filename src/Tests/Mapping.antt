-- ===== src/Tests/Mapping.antt =====
-- A client's cache of Widgets, and instances of the theorems on the maps from events.
use mathlib.Core.Path.{subst}
use dynamic_crd_watch.Base.{
  String, ◌≡◌, ◌↔◌, inl, inr, refl, Bool, true, false, ◌||◌, List, [], ◌∷◌, arith, str_eq, eq_iff,
  if◌then◌else◌, Bool-cases, sym,
}
use dynamic_crd_watch.Widget.{Widget}
use dynamic_crd_watch.Controller.{
  Lookup, found, plugin_ref_values, theme_ref_values, has_plugin_ref_values, has_theme_ref_values,
  plugin_ref_field, has_plugin_ref_field, theme_ref_field, has_theme_ref_field, field_indexes,
  Among, Lister,
}
use dynamic_crd_watch.Controller.Parents.{PluginRequests, ThemeRequests, requests_iff}
use dynamic_crd_watch.Tests.Demo.{DemoError, parent}
use dynamic_crd_watch.Tests.Reconciling.{widget}

-- A cache of Widgets that answers by the registered indexes.
abbrev pub values_at : String → Widget → List String
values_at field =
    if str_eq field plugin_ref_field
    then plugin_ref_values
    else if str_eq field theme_ref_field
    then theme_ref_values
    else if str_eq field has_plugin_ref_field
    then has_plugin_ref_values
    else if str_eq field has_theme_ref_field
    then has_theme_ref_values
    else λ w. []

abbrev has_value : String → List String → Bool
has_value value [] = false
has_value value (v ∷ vs) = str_eq value v || has_value value vs

abbrev select : (Widget → List String) → String → List Widget → List Widget
select values value [] = []
select values value (w ∷ ws) =
    let rest = select values value ws in if has_value value (values w) then w ∷ rest else rest

registered-values_at :
    (field : String) (values : Widget → List String)
    → Among {A = String × (Widget → List String)} (field, values) field_indexes
    → values_at field ≡ values
registered-values_at field values (inl e) = subst (λ p. values_at p.0 ≡ p.1) (sym e) refl
registered-values_at field values (inr (inl e)) = subst (λ p. values_at p.0 ≡ p.1) (sym e) refl
registered-values_at field values (inr (inr (inl e))) =
    subst (λ p. values_at p.0 ≡ p.1) (sym e) refl
registered-values_at field values (inr (inr (inr (inl e)))) =
    subst (λ p. values_at p.0 ≡ p.1) (sym e) refl
registered-values_at field values (inr (inr (inr (inr m)))) = elim m [ ]

has_value_iff : (value : String) (vs : List String) → (has_value value vs ≡ true) ↔ Among value vs
has_value_iff value [] = (λ e. ground arith, λ m. elim m [ ])
has_value_iff value (v ∷ vs) =
    let same = has_value_iff value vs in
    let head = eq_iff value v in
    (
      λ e. elim (Bool-cases (str_eq value v)) [
        | inl f ↦ inl (head.0 f)
        | inr f ↦ inr (same.0 (ground arith))
      ],
      λ m. elim m [ inl f ↦ rw (head.1 f) refl | inr n ↦ ground (arith, same.1 n) ],
    )

select_iff :
    (values : Widget → List String) (value : String) (ws : List Widget) (w : Widget)
    → Among w (select values value ws) ↔ (Among w ws × Among value (values w))
select_iff values value [] w = (λ m. elim m [ ], λ (m, _). elim m [ ])
select_iff values value (x ∷ ws) w =
    let rest = select_iff values value ws w in
    let test = has_value_iff value (values x) in
    elim (Bool-cases (has_value value (values x))) [
      | inl f ↦ rw f (
        elim [
          | inl e ↦ (inl e, subst (λ y. Among value (values y)) (sym e) (test.0 f))
          | inr m ↦ let (n, v) = rest.0 m in (inr n, v)
        ],
        λ (m, v). elim m [ inl e ↦ inl e | inr n ↦ inr (rest.1 (n, v)) ],
      )
      | inr f ↦ rw f (
        λ m. let (n, v) = rest.0 m in (inr n, v),
        λ (m, v). elim m [
          | inl e ↦
              let held = test.1 (subst (λ y. Among value (values y)) e v) in absurd (ground arith)
          | inr n ↦ rest.1 (n, v)
        ],
      )
    ]

matching :
    (c : List Widget) (field : String) (values : Widget → List String)
    → Among {A = String × (Widget → List String)} (field, values) field_indexes
    → (value : String) → (ws : List Widget)
    → ◌≡◌ {A = Lookup DemoError (List Widget)} (found (select (values_at field) value c)) (found ws)
    → (w : Widget) → Among w ws ↔ (Among w c × Among value (values w))
matching c field values registered value ws e w =
    let at = registered-values_at field values registered in
    let same : select values value c ≡ ws = ground arith in
    subst (λ l. Among w l ↔ (Among w c × Among value (values w))) same (select_iff values value c w)

abbrev cached : Lister
cached = record {
  Cached = List Widget;
  Error = DemoError;
  widgets = λ c. c;
  list = λ c field value. found (select (values_at field) value c);
  matching = matching;
}

requests_iff_example :
    PluginRequests cached "dark" (widget ∷ []) parent
    × ThemeRequests cached "dark" (widget ∷ []) parent
unfolding plugin_ref_values has_plugin_ref_values theme_ref_values has_theme_ref_values
requests_iff_example =
    requests_iff cached (widget ∷ []) "dark" "dark" (widget ∷ []) (widget ∷ []) [] (widget ∷ [])
      refl refl refl refl parent
