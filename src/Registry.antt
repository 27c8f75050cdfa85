-- ===== src/Registry.antt =====
-- pkg/dynamicwatch/registry.go with `RegisterOn` of builder.go and `Conditions` of condition.go: the
-- watchers of one controller, by the names of their CRDs.
pub mod Laws
pub mod View
pub mod Contract
use dynamic_crd_watch.Base.{
  ℕ, String, Bool, true, false, not, ◌&&◌, Option, none, some, List, [], ◌∷◌, ◌++◌, map, str_eq,
  is_some, if◌then◌else◌,
}
use dynamic_crd_watch.Base.Failing.{Result, ok, err}
use dynamic_crd_watch.Watcher.{Watcher}
use dynamic_crd_watch.Condition.{Condition, condition}
use dynamic_crd_watch.Builder.{
  Manager, CacheOptions, crds, created, failed, WatcherBuilder, BuildError, Built, build,
}

-- The map `watchers` as an association list; its order is not that of the map, which has none.
pub record Registry (m : Manager) : Type 0 where
  pub crd_cache : m.Cache
  pub watchers : List (String × Built m)

pub data CrdCacheError (Error : Type 0) : Type 0 where
  manager_required : CrdCacheError Error
  creating : Error → CrdCacheError Error
  registering : Error → CrdCacheError Error

pub data RegistryError (Error : Type 0) : Type 0 where
  nil_manager : RegistryError Error
  crd_cache_failed : CrdCacheError Error → RegistryError Error

-- A read of the map `watchers`.
unfoldable pub find : {V : Type 0} → String → List (String × V) → Option V
find name [] = none
find name ((k, v) ∷ rest) = if str_eq k name then some v else find name rest

module _ (m : Manager) where
  -- `NewCRDCache`; `mgr` is whether the manager is not nil.
  unfoldable pub new_crd_cache :
      (mgr : Bool) → m.State → Result (CrdCacheError m.Error) m.Cache × m.State
  new_crd_cache mgr s =
      let (made, t) = m.new_cache (crds none) s in
      let finish : m.Cache → Result (CrdCacheError m.Error) m.Cache × m.State = λ c.
        let (failure, u) = m.add c t in
        elim failure [ none ↦ (ok c, u) | some e ↦ (err (registering e), u) ] in
      if mgr
      then elim made [ created c ↦ finish c | failed e ↦ (err (creating e), t) ]
      else (err manager_required, s)

module _ {m : Manager} where
  unfoldable pub new_registry :
      (mgr : Bool) → m.State → Result (RegistryError m.Error) (Registry m) × m.State
  unfolding new_crd_cache
  new_registry mgr s =
      let (made, t) = new_crd_cache m mgr s in
      let finish : Result (RegistryError m.Error) (Registry m) = elim made [
        | ok c ↦ ok (record { crd_cache = c; watchers = [] })
        | err e ↦ err (crd_cache_failed e)
      ] in
      if mgr then (finish, t) else (err nil_manager, s)

  unfoldable pub has : Registry m → String → Bool
  unfolding find
  has r crd_name = is_some (find crd_name r.watchers)

  -- `none` is the error of a name that is taken.
  unfoldable pub register : String → Built m → Registry m → Option (Registry m)
  unfolding find
  register crd_name w r =
      if is_some (find crd_name r.watchers)
      then none
      else some (record r { watchers = (crd_name, w) ∷ r.watchers })

pub data RegisterError (Error : Type 0) : Type 0 where
  already_registered : RegisterError Error
  building : BuildError Error → RegisterError Error

-- What `RegisterOn` changes: the manager, the registry, and the sources that the controller's builder
-- was given by `WatchesRawSource`. The newest registrations come first.
pub record Setup (m : Manager) : Type 0 where
  pub manager : m.State
  pub registry : Registry m
  pub sources : List (Built m)

module _ {m : Manager} where
  -- The end of `RegisterOn`, once the watcher is built. The handle that it returns is the watcher.
  unfoldable pub enlist :
      String → Built m → Setup m → Result (RegisterError m.Error) (Built m) × Setup m
  enlist crd_name w s = elim (register crd_name w s.registry) [
    | none ↦ (err already_registered, s)
    | some registry ↦ (ok w, record s { registry = registry; sources = w ∷ s.sources })
  ]

  -- `RegisterOn`; `none` is the panic for a nil registry or a nil builder. The watcher's builder is taken
  -- by value: that the code leaves the registry's CRD cache in it is not in what is returned.
  unfoldable pub register_on :
      (ℕ → ℕ)
      → (reg ctrl_builder : Bool) → WatcherBuilder m
      → Setup m
      → Option (Result (RegisterError m.Error) (Built m) × Setup m)
  unfolding enlist
  register_on upper reg ctrl_builder b s =
      let shared : WatcherBuilder m = record b { crd_cache = some s.registry.crd_cache } in
      let (built, manager) = build m upper shared s.manager in
      let t = record s { manager = manager } in
      let finish : Result (RegisterError m.Error) (Built m) × Setup m = elim built [
        | err e ↦ (err (building e), t)
        | ok w ↦ enlist b.crd_name w t
      ] in
      if not (reg && ctrl_builder)
      then none
      else if has s.registry b.crd_name
      then some (err already_registered, s)
      else some finish

-- The condition of every registered watcher, whose state now is `now`.
unfoldable pub conditions : {m : Manager} → (Built m → Watcher) → Registry m → List Condition
conditions now r = map (λ entry. condition (now entry.1)) r.watchers
