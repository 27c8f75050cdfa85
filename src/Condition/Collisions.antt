-- ===== src/Condition/Collisions.antt =====
-- Which CRDs share a condition type in pkg/dynamicwatch/condition.go.
use mathlib.Core.Path.{ap₂, subst}
use mathlib.Core.List.{map-append, append-nil, append_cancel_right}
use dynamic_crd_watch.Base.{
  ℕ, zero, suc, ◌+◌, ◌≤◌, ◌<◌, ◌≡◌, refl, ap, sym, inl, inr, ◌∙◌, ◌↔◌, ◌&&◌, Option, none, some, [],
  ◌∷◌, ◌++◌, map, codes, to_upper, leb, ◌==◌, arith, if◌then◌else◌, Bool-cases,
}
use dynamic_crd_watch.Base.Lists.{length}
use dynamic_crd_watch.Base.Text.{Text}
use dynamic_crd_watch.Condition.Naming.{
  abbreviations, pascal_split, find_prefix, capitalize, pascal_fuel, to_pascal_case, before_dot,
  condition_type_from_crd_name,
}
use dynamic_crd_watch.Condition.Laws.{rest-lt}

-- Lower case, on ASCII letters.
abbrev pub to_lower : ℕ → ℕ
to_lower c = if leb b'A' c && leb c b'Z' then c + 32 else c

-- ASCII runes that are no capital letters, as a valid CRD name has.
abbrev pub AllPlain : Text → Type 0
AllPlain [] = Unit
AllPlain (c ∷ cs) = (c < 128) × (to_lower c ≡ c) × AllPlain cs

lower-upper : (upper : ℕ → ℕ) (c : ℕ) → c < 128 → to_lower c ≡ c → to_lower (to_upper upper c) ≡ c
lower-upper upper c small plain = ground arith

map-lower-upper :
    (upper : ℕ → ℕ) (s : Text) → AllPlain s → map to_lower (map (to_upper upper) s) ≡ s
map-lower-upper upper [] _ = refl
map-lower-upper upper (c ∷ cs) (small, plain, rest) =
    ap₂ ◌∷◌ (lower-upper upper c small plain) (map-lower-upper upper cs rest)

map-lower : (s : Text) → AllPlain s → map to_lower s ≡ s
map-lower [] _ = refl
map-lower (c ∷ cs) (small, plain, rest) = ap₂ ◌∷◌ plain (map-lower cs rest)

AllPlain-append : (xs ys : Text) → AllPlain (xs ++ ys) → AllPlain xs × AllPlain ys
AllPlain-append [] ys h = (tt, h)
AllPlain-append (x ∷ xs) ys (small, plain, h) =
    let (hx, hy) = AllPlain-append xs ys h in ((small, plain, hx), hy)

module _ (upper : ℕ → ℕ) where
  lower-capitalize : (s : Text) → AllPlain s → map to_lower (capitalize upper s) ≡ s
  unfolding capitalize
  lower-capitalize [] _ = refl
  lower-capitalize (c ∷ cs) (small, plain, rest) =
      ap₂ ◌∷◌ (lower-upper upper c small plain) (map-lower cs rest)

  lower-split :
      (again : Text → Text) (s : Text) (found : Option (Text × Text))
      → ((p r : Text) → found ≡ some (p, r) → (s ≡ p ++ r) × (map to_lower (again r) ≡ r))
      → AllPlain s
      → map to_lower (pascal_split upper again s found) ≡ s
  lower-split again s none h plain = lower-capitalize s plain
  lower-split again s (some (p, [])) h plain =
      let (e, _) = h p [] refl in
      let (hp, _) = AllPlain-append p [] (rw e at plain) in
      map-lower-upper upper p hp ∙ sym (e ∙ append-nil p)
  lower-split again s (some (p, c ∷ cs)) h plain =
      let (e, low) = h p (c ∷ cs) refl in
      let (hp, _) = AllPlain-append p (c ∷ cs) (rw e at plain) in
      map-append to_lower (map (to_upper upper) p) (again (c ∷ cs))
      ∙ ap₂ ◌++◌ (map-lower-upper upper p hp) low
      ∙ sym e

  lower-pascal :
      (f : ℕ) (s : Text) → length s ≤ f → AllPlain s → map to_lower (pascal_fuel upper f s) ≡ s
  unfolding pascal_fuel
  lower-pascal zero s le plain = map-lower s plain
  lower-pascal (suc f) [] le plain = refl
  lower-pascal (suc f) (c ∷ cs) le plain =
      lower-split (pascal_fuel upper f) (c ∷ cs) (find_prefix abbreviations (c ∷ cs))
        (λ p r e.
          let (split, lt) = rest-lt (c ∷ cs) p r e in
          let (_, hr) = AllPlain-append p r (subst AllPlain split plain) in
          (split, lower-pascal f r (omega arith) hr))
        plain

  AllPlain-before_dot : (s : Text) → AllPlain s → AllPlain (before_dot s)
  unfolding before_dot
  AllPlain-before_dot [] h = tt
  AllPlain-before_dot (c ∷ cs) (small, plain, h) = elim (Bool-cases (c == b'.')) [
    | inl dot ↦ rw (dot, before_dot) tt
    | inr other ↦ rw (other, before_dot) (small, plain, AllPlain-before_dot cs h)
  ]

  -- The lower case of a plain text's PascalCase is the text.
  low : (s : Text) → AllPlain s → map to_lower (to_pascal_case upper s) ≡ s
  unfolding to_pascal_case
  low s plain = lower-pascal (length s) s (omega arith) plain

  -- Two CRDs whose names have ASCII runes and no capital letters get the same derived condition type
  -- exactly when their plurals, the parts before the first dot, are the same, whatever their groups.
  pub condition_type_iff :
      (a b : Text)
      → AllPlain a
      → AllPlain b
      → (condition_type_from_crd_name upper a ≡ condition_type_from_crd_name upper b)
        ↔ (before_dot a ≡ before_dot b)
  unfolding condition_type_from_crd_name
  condition_type_iff a b ha hb = (
    λ e.
        let p = append_cancel_right _ _ (codes "Available") e in
        sym (low (before_dot a) (AllPlain-before_dot a ha))
        ∙ ap (map to_lower) p
        ∙ low (before_dot b) (AllPlain-before_dot b hb),
    λ e. ap (λ s. to_pascal_case upper s ++ codes "Available") e,
  )
