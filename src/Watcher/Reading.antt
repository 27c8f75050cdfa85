-- ===== src/Watcher/Reading.antt =====
-- `TryGet` and `TryList` of pkg/dynamicwatch/watcher.go against their contract.
use dynamic_crd_watch.Base.{
  ◌≡◌, inl, inr, Bool, true, false, not, ◌&&◌, Option, none, [], arith, if◌then◌else◌, Bool-cases,
  Option-cases,
}
use dynamic_crd_watch.Watcher.Interface.{Request, ObjectList, Runtime}
use dynamic_crd_watch.Watcher.State.{World, crd_not_found}
use dynamic_crd_watch.Watcher.Lifecycle.{ensure, handle_cache_invalidated}
use dynamic_crd_watch.Watcher.Status.{status}
use dynamic_crd_watch.Watcher.Reads.{Tried, panicked, result, try_get, try_list}

module _ {rt : Runtime} where
  -- A watcher that was started, is active and has its informer is readable.
  abbrev pub is_readable : World rt → Bool
  is_readable w = w.started && w.active && rt.has_informer w.outside

  -- The contract of `TryGet`, from the state before the call and what the cache answers in it.
  abbrev pub get_contract :
      World rt → Option rt.Error → rt.Object → rt.Object → Tried rt.Error rt.Object
  get_contract w err before after =
      if not w.started
      then panicked
      else if is_readable w
      then result true err after
      else result false none (if w.active then after else before)

  -- `TryGet` keeps its contract. Before `Start` it panics. Otherwise it returns (true, err) with
  -- the cache's own error, or (true, nil) with the object that the cache gave, exactly when the
  -- watcher is active and its informer is there, and (false, nil) in every other case.
  pub try_get-contract :
      (key : Request) (obj : rt.Object) (w : World rt)
      → let (err, after) = rt.get w.outside key obj in
        (try_get key obj w).0 ≡ get_contract w err obj after
  unfolding try_get ensure
  try_get-contract key obj w = elim (Option-cases (rt.get w.outside key obj).0) [
    | inl e ↦ elim (Bool-cases (rt.has_informer w.outside)) [
      | inl there ↦ ground arith
      | inr gone ↦ let (x, f) = rt.get_missing w.outside key obj gone in ground arith
    ]
    | inr (x, e) ↦ ground (arith, rt.get_failed w.outside key obj x)
  ]

  abbrev pub list_contract :
      World rt → Option rt.Error → ObjectList rt.Object → Tried rt.Error (ObjectList rt.Object)
  list_contract w err after =
      if not w.started
      then panicked
      else if is_readable w
      then result true err after
      else result false none (record { items = []; remaining_item_count = none })

  -- `TryList` keeps its contract. Before `Start` it panics. Otherwise it returns (true, err) with the
  -- cache's own error, or (true, nil), and the list that the cache gave, exactly when the watcher is
  -- active and its informer is there; in every other case it returns (false, nil) and an empty list,
  -- whatever the caller's list or the cache held.
  pub try_list-contract :
      (opts : rt.ListOptions) (l : ObjectList rt.Object) (w : World rt)
      → let (err, after) = rt.list w.outside opts l in
        (try_list opts l w).0 ≡ list_contract w err after
  unfolding try_list ensure
  try_list-contract opts l w = elim (Option-cases (rt.list w.outside opts l).0) [
    | inl e ↦ elim (Bool-cases (rt.has_informer w.outside)) [
      | inl there ↦ ground arith
      | inr gone ↦ let (x, f) = rt.list_missing w.outside opts l gone in ground arith
    ]
    | inr (x, e) ↦ ground (arith, rt.list_failed w.outside opts l x)
  ]

  -- A read of a started and active watcher that finds no informer leaves the watcher unavailable
  -- because the CRD is not known, with no sync waiter's cancel function stored, and asks for no
  -- reconcile.
  pub try_get-invalidates :
      (key : Request) (obj : rt.Object) (w : World rt)
      → w.started ≡ true
      → w.active ≡ true
      → rt.has_informer w.outside ≡ false
      → let v = (try_get key obj w).1 in
        (status v.watcher ≡ record { available = false; reason = crd_not_found })
        × (v.cancel_sync_waiter ≡ none)
        × (v.gauge ≡ false)
        × (v.added ≡ w.added)
  unfolding try_get ensure handle_cache_invalidated status
  try_get-invalidates key obj w started active gone =
      let (x, f) = rt.get_missing w.outside key obj gone in
      ground (arith, rt.get_failed w.outside key obj x)
