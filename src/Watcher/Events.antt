-- ===== src/Watcher/Events.antt =====
-- `onCRDChange` of pkg/dynamicwatch/watcher.go: what a CRD event leaves behind, and whom it requeues.
use dynamic_crd_watch.Base.{
  ℕ, ◌+◌, ◌%◌, ◌^◌, ◌≡◌, sym, ◌∙◌, ◌⊎◌, inl, inr, ◌≢◌, true, false, none, some, List, [], arith,
  if◌then◌else◌, Bool-cases, Option-cases, ℕ_discrete,
}
use dynamic_crd_watch.Crd.{Crd, crd_removed}
use dynamic_crd_watch.Watcher.Interface.{Request, Runtime}
use dynamic_crd_watch.Watcher.State.{World}
use dynamic_crd_watch.Watcher.Lifecycle.{on_crd_change}

-- An event that requeues nobody and leaves the flags and the cache as they were.
abbrev pub Unmoved : {rt : Runtime} → World rt → List Request × World rt → Type 0
Unmoved v (requests, u) =
    (requests ≡ [])
    × (u.watching ≡ v.watching)
    × (u.active ≡ v.active)
    × (u.crd_exists ≡ v.crd_exists)
    × (u.cancel_sync_waiter ≡ v.cancel_sync_waiter)
    × (u.outside ≡ v.outside)
    × (u.gauge ≡ v.gauge)
    × (u.recorded ≡ v.recorded)

module _ {rt : Runtime} {Spec : Type 0} where
  -- An event of a CRD that goes away always leaves the watch down: not watching, not active, the CRD
  -- unknown, one generation on (modulo 2 ^ 64), no cancel function stored and the stored
  -- waiter's context cancelled; if the watch was registered and `RemoveInformer` succeeds, the
  -- informer is gone; and the affected parents are requeued exactly if the watch was active.
  pub removal_complete :
      (crd : Crd Spec) (w : World rt) (i : ℕ)
      → crd_removed crd ≡ true
      → let (requests, v) = on_crd_change crd w in
        (v.watching ≡ false)
        × (v.active ≡ false)
        × (v.crd_exists ≡ false)
        × (v.generation ≡ (w.generation + 1) % 2 ^ 64)
        × (v.cancel_sync_waiter ≡ none)
        × ((w.cancel_sync_waiter ≢ some i) ⊎ (v.cancelled i ≡ true))
        × ((w.watching ≡ false)
            ⊎ ((rt.remove_informer w.outside).0 ≢ none)
            ⊎ (rt.has_informer v.outside ≡ false))
        × (requests ≡ (if w.active then rt.requeue_all v.outside else []))
  unfolding on_crd_change
  removal_complete crd w i gone = (
    ground arith,
    ground arith,
    ground arith,
    ground arith,
    ground arith,
    stored,
    torn,
    ground arith,
  )
    where
      v : World rt
      v = (on_crd_change crd w).1

      stored : (w.cancel_sync_waiter ≢ some i) ⊎ (v.cancelled i ≡ true)
      stored = elim (Option-cases w.cancel_sync_waiter) [
        | inl e ↦ inl (ground arith)
        | inr (k, e) ↦ elim (ℕ_discrete k i) [
          | yes same ↦ inr (ground arith)
          | no differs ↦ inl (ground arith)
        ]
      ]

      torn :
          (w.watching ≡ false)
          ⊎ ((rt.remove_informer w.outside).0 ≢ none)
          ⊎ (rt.has_informer v.outside ≡ false)
      torn = elim (Bool-cases w.watching) [
        | inr idle ↦ inl idle
        | inl watching ↦ elim (Option-cases (rt.remove_informer w.outside).0) [
          | inl e ↦ inr (inr (ground (arith, rt.removes w.outside)))
          | inr (x, e) ↦ inr (inl (ground arith))
        ]
      ]

  removal-Unmoved :
      (crd : Crd Spec) (w : World rt)
      → crd_removed crd ≡ true
      → w.watching ≡ false
      → w.active ≡ false
      → w.crd_exists ≡ false
      → w.cancel_sync_waiter ≡ none
      → Unmoved w (on_crd_change crd w)
  unfolding on_crd_change
  removal-Unmoved crd w gone idle inactive unknown free = ground arith

  presence-Unmoved :
      (crd : Crd Spec) (w : World rt)
      → crd_removed crd ≡ false
      → w.crd_exists ≡ true
      → Unmoved w (on_crd_change crd w)
  unfolding on_crd_change
  presence-Unmoved crd w usable known = ground arith

  present_known :
      (crd : Crd Spec) (w : World rt)
      → crd_removed crd ≡ false
      → (on_crd_change crd w).1.crd_exists ≡ true
  unfolding on_crd_change
  present_known crd w usable = ground arith

  -- A second event of the same kind, with nothing in between, requeues nobody and leaves the flags and
  -- the cache as the first one left them.
  pub on_crd_change_again :
      (crd crd' : Crd Spec) (w : World rt)
      → crd_removed crd ≡ crd_removed crd'
      → let v = (on_crd_change crd w).1 in Unmoved v (on_crd_change crd' v)
  on_crd_change_again crd crd' w same = elim (Bool-cases (crd_removed crd)) [
    | inl gone ↦
        let (idle, inactive, unknown, _, free, _, _, _) = removal_complete crd w 0 gone in
        removal-Unmoved crd' (on_crd_change crd w).1 (sym same ∙ gone) idle inactive unknown free
    | inr usable ↦
        presence-Unmoved crd' (on_crd_change crd w).1 (sym same ∙ usable)
          (present_known crd w usable)
  ]
