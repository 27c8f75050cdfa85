-- ===== src/Handle.antt =====
-- pkg/dynamicwatch/handle.go: handles on watchers. The watchers stand at addresses, and a handle is
-- the address of one, or nil in the zero value of the type.
pub mod Sharing
use dynamic_crd_watch.Condition
use dynamic_crd_watch.Watcher
use dynamic_crd_watch.Base.{ℕ, Bool, Option, none, some, update}
use dynamic_crd_watch.Condition.{Condition}
use dynamic_crd_watch.Watcher.{Request, ObjectList, Runtime, WatcherStatus, World, Tried, panicked}

pub record WatchHandle : Type 0 where
  pub w : Option ℕ

abbrev pub Watchers : Runtime → Type 0
Watchers rt = ℕ → World rt

module _ {rt : Runtime} where
  -- A method with a pointer receiver, which panics (with `panic`) where it reads a nil receiver.
  abbrev pub through :
      {A : Type 0} → A → WatchHandle → (World rt → A × World rt) → Watchers rt → A × Watchers rt
  through panic h method ws = elim h.w [
    | none ↦ (panic, ws)
    | some i ↦ let (a, v) = method (ws i) in (a, update ws i v)
  ]

  -- A method that only reads the watcher.
  abbrev reading : {A : Type 0} → (World rt → A) → World rt → Option A × World rt
  reading method v = (some (method v), v)

  unfoldable pub ensure : WatchHandle → Watchers rt → Option Bool × Watchers rt
  ensure h = through none h Watcher.ensure

  unfoldable pub try_get :
      WatchHandle → Request → rt.Object → Watchers rt → Tried rt.Error rt.Object × Watchers rt
  try_get h key obj = through panicked h (Watcher.try_get key obj)

  unfoldable pub try_list :
      WatchHandle
      → rt.ListOptions
      → ObjectList rt.Object
      → Watchers rt
      → Tried rt.Error (ObjectList rt.Object) × Watchers rt
  try_list h opts l = through panicked h (Watcher.try_list opts l)

  unfoldable pub available : WatchHandle → Watchers rt → Option Bool × Watchers rt
  available h = through none h (reading (λ v. Watcher.available v.watcher))

  unfoldable pub status : WatchHandle → Watchers rt → Option WatcherStatus × Watchers rt
  status h = through none h (reading (λ v. Watcher.status v.watcher))

  unfoldable pub condition : WatchHandle → Watchers rt → Option Condition × Watchers rt
  condition h = through none h (reading (λ v. Condition.condition v.watcher))
