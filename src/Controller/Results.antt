-- ===== src/Controller/Results.antt =====
-- `mergeResults` of internal/controller/widget_controller.go against its comment.
use dynamic_crd_watch.Base.{ℕ, ◌≤◌, ◌<◌, ◌≡◌, ◌⊎◌, inl, inr, List, [], ◌∷◌, arith}
use dynamic_crd_watch.Controller.Reconcile.{Result, no_result, merge_one, merge_from, merge_results}

-- Each result asks for no requeue, or for one no earlier than `m`, which then asks for one too.
abbrev pub AllLater : ℕ → List Result → Type 0
AllLater m [] = Unit
AllLater m (r ∷ rs) = ((r.requeue_after ≡ 0) ⊎ ((0 < m) × (m ≤ r.requeue_after))) × AllLater m rs

abbrev pub Occurs : ℕ → List Result → Type 0
Occurs m [] = ⊥
Occurs m (r ∷ rs) = (r.requeue_after ≡ m) ⊎ Occurs m rs

merge_one_cases :
    (acc r : Result)
    → let k = (merge_one acc r).requeue_after in
      ((k ≡ r.requeue_after) × (0 < k) × ((acc.requeue_after ≡ 0) ⊎ (k < acc.requeue_after)))
      ⊎ ((k ≡ acc.requeue_after) × ((r.requeue_after ≡ 0) ⊎ ((0 < k) × (k ≤ r.requeue_after))))
unfolding merge_one
merge_one_cases acc r = ground arith

merge_from_lem :
    (acc : Result) (rs : List Result)
    → let m = (merge_from acc rs).requeue_after in
      AllLater m rs
      × ((acc.requeue_after ≡ 0) ⊎ ((0 < m) × (m ≤ acc.requeue_after)))
      × ((m ≡ acc.requeue_after) ⊎ Occurs m rs)
unfolding merge_from
merge_from_lem acc [] = ground arith
merge_from_lem acc (r ∷ rs) =
    let (later, bound, one) = merge_from_lem (merge_one acc r) rs in
    let cases = merge_one_cases acc r in
    (
      (omega arith, later),
      omega arith,
      elim one [
        | inr there ↦ inr (inr there)
        | inl here ↦ elim cases [
          | inl (k, _, _) ↦ inr (inl (omega arith))
          | inr (k, _) ↦ inl (omega arith)
        ]
      ],
    )

-- The merged result asks for the shortest requeue: no result asks for an earlier one, a requeue is asked
-- for if any result asks for one, and it is that of one of the results.
pub merge_results_shortest :
    (rs : List Result)
    → let m = (merge_results rs).requeue_after in AllLater m rs × ((m ≡ 0) ⊎ Occurs m rs)
unfolding merge_results
merge_results_shortest rs = let (later, _, one) = merge_from_lem no_result rs in (later, one)
