-- ===== src/Tests/Reports.antt =====
-- Conditions kept in a list, an API server that holds one Widget, and a client's list of Widgets.
use dynamic_crd_watch.Base.{
  ◌≡◌, ◌≢◌, ◌↔◌, refl, Bool, true, false, ◌&&◌, Option, none, some, List, [], ◌∷◌, arith, str_eq,
  eq_iff, ◌==◌, if◌then◌else◌,
}
use dynamic_crd_watch.Base.Text.{Text}
use dynamic_crd_watch.Condition.{
  Condition, ConditionStatus, condition_true, condition_false, condition_unknown,
}
use dynamic_crd_watch.Widget.{Meta, WidgetStatus}

unfoldable pub text_eq : Text → Text → Bool
text_eq [] [] = true
text_eq [] (d ∷ t) = false
text_eq (c ∷ s) [] = false
text_eq (c ∷ s) (d ∷ t) = (c == d) && text_eq s t

text_eq_iff : (s t : Text) → (text_eq s t ≡ true) ↔ (s ≡ t)
unfolding text_eq
text_eq_iff [] [] = (λ e. refl, λ e. refl)
text_eq_iff [] (d ∷ t) = (λ e. ground arith, λ e. ground arith)
text_eq_iff (c ∷ s) [] = (λ e. ground arith, λ e. ground arith)
text_eq_iff (c ∷ s) (d ∷ t) = let same = text_eq_iff s t in (λ e. ground arith, λ e. ground arith)

unfoldable pub find : List Condition → Text → Option Condition
unfolding text_eq
find [] t = none
find (c ∷ cs) t = if text_eq c.type t then some c else find cs t

unfoldable pub remove : List Condition → Text → List Condition
unfolding text_eq
remove [] t = []
remove (c ∷ cs) t = let rest = remove cs t in if text_eq c.type t then rest else c ∷ rest

unfoldable pub set : List Condition → Condition → List Condition
unfolding remove
set cs c = c ∷ remove cs c.type

pub find-remove : (cs : List Condition) (t : Text) → find (remove cs t) t ≡ none
unfolding find remove
find-remove [] t = refl
find-remove (c ∷ cs) t = ground (arith, find-remove cs t)

pub find-remove_ne : (cs : List Condition) (t u : Text) → t ≢ u → find (remove cs t) u ≡ find cs u
unfolding find remove
find-remove_ne [] t u n = refl
find-remove_ne (c ∷ cs) t u n =
    let ih = find-remove_ne cs t u n in ground (arith, text_eq_iff c.type t, text_eq_iff c.type u)

pub find-set : (cs : List Condition) (c : Condition) → find (set cs c) c.type ≡ some c
unfolding find set
find-set cs c = ground (arith, text_eq_iff c.type c.type)

pub find-set_ne :
    (cs : List Condition) (c : Condition) (t : Text) → c.type ≢ t → find (set cs c) t ≡ find cs t
unfolding find set
find-set_ne cs c t n = ground (arith, text_eq_iff c.type t, find-remove_ne cs c.type t n)

abbrev pub demo_meta : Meta
demo_meta = record {
  set_status_condition = set;
  remove_status_condition = remove;
  find_status_condition = find;
  quote = λ s. s;
  find-set = find-set;
  find-set_ne = find-set_ne;
  find-remove = find-remove;
  find-remove_ne = find-remove_ne;
}

status_same : ConditionStatus → ConditionStatus → Bool
status_same condition_true condition_true = true
status_same condition_false condition_false = true
status_same condition_unknown condition_unknown = true
status_same _ _ = false

status_same_iff : (a b : ConditionStatus) → (status_same a b ≡ true) ↔ (a ≡ b)
unfolding status_same
status_same_iff condition_true b = (λ e. ground arith, λ e. ground arith)
status_same_iff condition_false b = (λ e. ground arith, λ e. ground arith)
status_same_iff condition_unknown b = (λ e. ground arith, λ e. ground arith)

condition_eq : Condition → Condition → Bool
condition_eq a b =
    text_eq a.type b.type
    && status_same a.status b.status
    && str_eq a.reason b.reason
    && str_eq a.message b.message
    && (a.observed_generation == b.observed_generation)

condition_eq_iff : (a b : Condition) → (condition_eq a b ≡ true) ↔ (a ≡ b)
unfolding condition_eq
condition_eq_iff a b =
    let types = text_eq_iff a.type b.type in
    let statuses = status_same_iff a.status b.status in
    let reasons = eq_iff a.reason b.reason in
    let messages = eq_iff a.message b.message in (λ e. ground arith, λ e. ground arith)

conditions_eq : List Condition → List Condition → Bool
conditions_eq [] [] = true
conditions_eq [] (d ∷ t) = false
conditions_eq (c ∷ s) [] = false
conditions_eq (c ∷ s) (d ∷ t) = condition_eq c d && conditions_eq s t

conditions_eq_iff : (s t : List Condition) → (conditions_eq s t ≡ true) ↔ (s ≡ t)
unfolding conditions_eq
conditions_eq_iff [] [] = (λ e. refl, λ e. refl)
conditions_eq_iff [] (d ∷ t) = (λ e. ground arith, λ e. ground arith)
conditions_eq_iff (c ∷ s) [] = (λ e. ground arith, λ e. ground arith)
conditions_eq_iff (c ∷ s) (d ∷ t) =
    let same = conditions_eq_iff s t in
    let heads = condition_eq_iff c d in (λ e. ground arith, λ e. ground arith)

pub status_eq : WidgetStatus → WidgetStatus → Bool
status_eq a b =
    (a.observed_generation == b.observed_generation) && conditions_eq a.conditions b.conditions

pub status_eq_iff : (a b : WidgetStatus) → (status_eq a b ≡ true) ↔ (a ≡ b)
unfolding status_eq
status_eq_iff a b =
    let same = conditions_eq_iff a.conditions b.conditions in (λ e. ground arith, λ e. ground arith)
