-- ===== src/Condition/Laws.antt =====
-- What the derived condition type of pkg/dynamicwatch/condition.go says of the CRD's name.
use dynamic_crd_watch.Base.{
  ℕ, zero, suc, ◌+◌, ◌≤◌, ◌<◌, ◌≡◌, refl, ap, inl, inr, Option, none, some, List, [], ◌∷◌, ◌++◌,
  map, to_upper, arith, Option-cases,
}
use dynamic_crd_watch.Base.Lists.{length}
use dynamic_crd_watch.Base.Text.{Text}
use dynamic_crd_watch.Condition.Naming.{
  strip_prefix, abbreviations, pascal_split, find_prefix, pascal_fuel, to_pascal_case,
}

strip_prefix_sound : (p s : Text) {r : Text} → strip_prefix p s ≡ some r → s ≡ p ++ r
unfolding strip_prefix
strip_prefix_sound [] s h = ground arith
strip_prefix_sound (p ∷ ps) [] h = absurd (ground arith)
strip_prefix_sound (p ∷ ps) (c ∷ cs) {r} h = ground (arith, strip_prefix_sound ps cs {r = r})

-- Texts that are not empty, whose members are not empty.
abbrev AllFull : List Text → Type 0
AllFull [] = Unit
AllFull (p ∷ ps) = (0 < length p) × AllFull ps

find_prefix_sound :
    (ps : List Text) (s p r : Text)
    → AllFull ps
    → find_prefix ps s ≡ some (p, r)
    → (s ≡ p ++ r) × (0 < length p)
unfolding find_prefix
find_prefix_sound [] s p r full h = absurd (ground arith)
find_prefix_sound (q ∷ qs) s p r full h = elim (Option-cases (strip_prefix q s)) [
  | inl e ↦ find_prefix_sound qs s p r full.1 (ground arith)
  | inr (t, e) ↦ ground (arith, strip_prefix_sound q s {r = t} e)
]

length-append : (xs ys : Text) → length (xs ++ ys) ≡ length xs + length ys
length-append [] ys = omega arith
length-append (x ∷ xs) ys = omega (arith, length-append xs ys)

full_abbreviations : AllFull abbreviations
full_abbreviations = omega arith

-- What is left behind an abbreviation is shorter.
pub rest-lt :
    (s p r : Text)
    → find_prefix abbreviations s ≡ some (p, r)
    → (s ≡ p ++ r) × (length r < length s)
rest-lt s p r h =
    let (e, pos) = find_prefix_sound abbreviations s p r full_abbreviations h in
    (e, omega (arith, ap length e, length-append p r))

module _ (upper : ℕ → ℕ) where
  -- The step behind an abbreviation, for two continuations that agree on what is left.
  split-eq :
      (again again' : Text → Text) (s : Text) (found : Option (Text × Text))
      → ((p r : Text) → found ≡ some (p, r) → again r ≡ again' r)
      → pascal_split upper again s found ≡ pascal_split upper again' s found
  split-eq again again' s none h = refl
  split-eq again again' s (some (p, [])) h = refl
  split-eq again again' s (some (p, c ∷ cs)) h =
      ap (λ t. map (to_upper upper) p ++ t) (h p (c ∷ cs) refl)

  -- Any fuel that is at least the length gives one result.
  pascal_fuel_enough :
      (f g : ℕ) (s : Text)
      → length s ≤ f
      → length s ≤ g
      → pascal_fuel upper f s ≡ pascal_fuel upper g s
  unfolding pascal_fuel
  pascal_fuel_enough zero zero s _ _ = refl
  pascal_fuel_enough zero (suc g) [] _ _ = refl
  pascal_fuel_enough zero (suc g) (c ∷ cs) h _ = absurd (omega arith)
  pascal_fuel_enough (suc f) zero [] _ _ = refl
  pascal_fuel_enough (suc f) zero (c ∷ cs) _ h = absurd (omega arith)
  pascal_fuel_enough (suc f) (suc g) [] _ _ = refl
  pascal_fuel_enough (suc f) (suc g) (c ∷ cs) hf hg =
      split-eq (pascal_fuel upper f) (pascal_fuel upper g) (c ∷ cs)
        (find_prefix abbreviations (c ∷ cs))
        λ p r e.
          let (_, lt) = rest-lt (c ∷ cs) p r e in
          pascal_fuel_enough f g r (omega arith) (omega arith)

  to_pascal_case-nil : to_pascal_case upper [] ≡ []
  unfolding to_pascal_case
  to_pascal_case-nil = refl

  -- The fuel suffices: on every text that is not empty `to_pascal_case` satisfies the recursion of the
  -- source, with no fuel in it.
  pub to_pascal_case-step :
      (c : ℕ) (cs : Text)
      → let s = c ∷ cs in
        to_pascal_case upper s
        ≡ pascal_split upper (to_pascal_case upper) s (find_prefix abbreviations s)
  unfolding to_pascal_case
  to_pascal_case-step c cs =
      split-eq (pascal_fuel upper (length cs)) (λ t. pascal_fuel upper (length t) t) (c ∷ cs)
        (find_prefix abbreviations (c ∷ cs))
        λ p r e.
          let (_, lt) = rest-lt (c ∷ cs) p r e in
          pascal_fuel_enough (length cs) (length r) r (omega arith) (omega arith)
