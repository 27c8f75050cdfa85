-- ===== src/Watcher/Reads.antt =====
-- pkg/dynamicwatch/watcher.go: `TryGet` and `TryList`, with `get`, `list` and `clearList`.
use dynamic_crd_watch.Base.{Bool, true, false, Option, none, some, [], if◌then◌else◌}
use dynamic_crd_watch.Watcher.Interface.{Request, ObjectList, Runtime}
use dynamic_crd_watch.Watcher.State.{World}
use dynamic_crd_watch.Watcher.Lifecycle.{ensure, handle_cache_invalidated}

-- The error of `get` and `list`: `errCacheInvalidated`, or the cache's own.
pub data ReadError (Error : Type 0) : Type 0 where
  cache_invalidated : ReadError Error
  other : Error → ReadError Error

-- What `TryGet` and `TryList` return, with the caller's object or list after the call; `panicked` is
-- the panic of `Ensure` before `Start`.
pub data Tried (Error A : Type 0) : Type 0 where
  panicked : Tried Error A
  result : Bool → Option Error → A → Tried Error A

-- `meta.SetList(list, nil)`, or the same by reflection, and `SetRemainingItemCount(nil)`.
unfoldable pub clear_list : {Object : Type 0} → ObjectList Object → ObjectList Object
clear_list l = record { items = []; remaining_item_count = none }

-- What `TryGet` and `TryList` return after the read; `on_false` is what the caller's object or list
-- becomes where they return false.
unfoldable pub judge : {Error A : Type 0} → (A → A) → Option (ReadError Error) → A → Tried Error A
judge on_false none a = result true none a
judge on_false (some cache_invalidated) a = result false none (on_false a)
judge on_false (some (other e)) a = result true (some e) a

module _ {rt : Runtime} where
  -- The error handling that `get` and `list` share.
  unfoldable pub check_read : Option rt.Error → World rt → Option (ReadError rt.Error) × World rt
  check_read none w = (none, w)
  check_read (some e) w =
      if rt.is_not_cached e
      then (some cache_invalidated, handle_cache_invalidated w)
      else (some (other e), w)

  unfoldable pub get :
      Request → rt.Object → World rt → Option (ReadError rt.Error) × rt.Object × World rt
  unfolding check_read
  get key obj w =
      let (failure, obj') = rt.get w.outside key obj in
      let (err, w') = check_read failure w in (err, obj', w')

  unfoldable pub list :
      rt.ListOptions
      → ObjectList rt.Object
      → World rt
      → Option (ReadError rt.Error) × ObjectList rt.Object × World rt
  unfolding check_read
  list opts l w =
      let (failure, l') = rt.list w.outside opts l in
      let (err, w') = check_read failure w in (err, l', w')

  unfoldable pub try_get : Request → rt.Object → World rt → Tried rt.Error rt.Object × World rt
  unfolding get judge
  try_get key obj w =
      let (ok, v) = ensure w in
      let (err, obj', v') = get key obj v in
      elim ok [
        | none ↦ (panicked, v)
        | some false ↦ (result false none obj, v)
        | some true ↦ (judge (λ o. o) err obj', v')
      ]

  unfoldable pub try_list :
      rt.ListOptions
      → ObjectList rt.Object
      → World rt
      → Tried rt.Error (ObjectList rt.Object) × World rt
  unfolding list judge clear_list
  try_list opts l w =
      let (ok, v) = ensure w in
      let (err, l', v') = list opts l v in
      elim ok [
        | none ↦ (panicked, v)
        | some false ↦ (result false none (clear_list l), v)
        | some true ↦ (judge clear_list err l', v')
      ]
