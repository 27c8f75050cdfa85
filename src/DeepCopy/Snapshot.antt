-- ===== src/DeepCopy/Snapshot.antt =====
-- The copies that `Reconcile` of internal/controller/widget_controller.go takes of a Widget before it
-- changes the status in place.
use dynamic_crd_watch.Base.{◌≡◌, refl, ◌∙◌, arith, Option, some}
use dynamic_crd_watch.DeepCopy.Types.{MetaTypes, WidgetStatus, Widget, Heap}
use dynamic_crd_watch.DeepCopy.Copier.{Agree, Agree-narrow, Agree-trans, Extends-Within}
use dynamic_crd_watch.DeepCopy.Generated.{MetaCopies, widget_status, widget}
use dynamic_crd_watch.DeepCopy.Pointers.{deep_copy, widget_status_deep_copy, widget_deep_copy}
use dynamic_crd_watch.DeepCopy.Deep.{AreDeep, widget_status-IsDeep, widget-IsDeep}
use dynamic_crd_watch.DeepCopy.Separate.{IsDeep-AreApart}

module _ {t : MetaTypes} (m : MetaCopies t) where
  -- `oldStatus` and the base of `patch`.
  unfoldable pub take_snapshots :
      Widget t → Heap t → Option WidgetStatus × Option (Widget t) × Heap t
  unfolding widget_status_deep_copy widget_deep_copy
  take_snapshots w h =
      let (old_status, h₁) = widget_status_deep_copy m (some (w.status)) h in
      let (base, h₂) = widget_deep_copy m (some w) h₁ in (old_status, base, h₂)

  -- The old status and the base of the patch, where the copies of package meta/v1 are deep: both
  -- read as the Widget did when it was read, whatever is written afterwards to
  -- the blocks of the Widget (its conditions are set in place) or to blocks that are allocated later.
  pub take_snapshots-kept :
      (deep : AreDeep m) (w : Widget t) (h k : Heap t)
      → (widget m).Within 0 h.next h w
      → Agree t h.next (take_snapshots w h).2.next (take_snapshots w h).2 k
      → (old_status : WidgetStatus) × (base : Widget t) × ((take_snapshots w h).0 ≡ some old_status)
        × ((take_snapshots w h).1 ≡ some base)
        × ((widget_status m).view k old_status ≡ (widget_status m).view h w.status)
        × ((widget m).view k base ≡ (widget m).view h w)
  unfolding take_snapshots widget_status_deep_copy widget_deep_copy deep_copy
  take_snapshots-kept deep w h k inside g =
      let h₁ = ((widget_status m).copy w.status h).1 in
      let h₂ = ((widget m).copy w h₁).1 in
      let first = IsDeep-AreApart (widget_status-IsDeep m deep) h w.status inside.1 in
      let (same, rest) = Extends-Within (widget-IsDeep m deep) first.extends inside in
      let second = IsDeep-AreApart (widget-IsDeep m deep) h₁ w rest in
      let older : Agree t h.next h₁.next h₁ h₂ =
        Agree-narrow {lo = 0} {hi = h₁.next} (omega arith) (omega arith) second.extends.agree in
      (
        ((widget_status m).copy w.status h).0,
        ((widget m).copy w h₁).0,
        refl,
        refl,
        first.copy_reads k (
            Agree-trans older (Agree-narrow (omega arith) (omega (arith, second.extends.grows)) g)),
        second.copy_reads k (Agree-narrow (omega (arith, first.extends.grows)) (omega arith) g)
            ∙ same,
      )
