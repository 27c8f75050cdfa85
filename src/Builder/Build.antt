-- ===== src/Builder/Build.antt =====
-- pkg/dynamicwatch/builder.go: `Build`.
use dynamic_crd_watch.Base.{
  ℕ, ◌*◌, Bool, true, false, not, ◌&&◌, Option, none, some, List, codes, ◌==◌, is_some,
  if◌then◌else◌, ◌||◌,
}
use dynamic_crd_watch.Base.Failing.{ok, err, Failing, ◌>>=◌, ◌>>◌, return, throw}
use dynamic_crd_watch.Base.Lists.{is_empty}
use dynamic_crd_watch.Condition.Naming.{condition_type_from_crd_name}
use dynamic_crd_watch.Watcher.{Watcher, new_watcher}
use dynamic_crd_watch.Builder.Library.{Manager, CacheOptions, crds, objects, created, failed}
use dynamic_crd_watch.Builder.Options.{WatcherBuilder}
use dynamic_crd_watch.Builder.Name.{validate_crd_name}

-- The steps of `Build` that fail in the libraries.
pub data BuildStep : Type 0 where
  deriving_gvk creating_crd_cache registering_crd_cache creating_object_cache
        registering_object_cache deriving_owner_gvk :
      BuildStep

pub data BuildError (Error : Type 0) : Type 0 where
  bad_crd_name handler_required mutually_exclusive crd_change_required : BuildError Error
  wrapped : BuildStep → Error → BuildError Error

-- 30 seconds, in nanoseconds.
abbrev pub default_sync_timeout : ℕ
default_sync_timeout = 30 * 1_000_000_000

-- A watcher with what `Build` gives it: its state, and what never changes.
pub record Built (m : Manager) : Type 0 where
  pub watcher : Watcher
  pub open watcher use *
  pub obj_cache : m.Cache
  pub crd_cache : m.Cache
  pub obj_handler : m.Handler
  pub predicates : List m.Predicate
  pub requeue_all : m.Requeue
  pub sync_timeout : ℕ

module _ (m : Manager) where
  -- A step of `Build`, over the manager's state.
  abbrev pub Step : Type 0 → Type 0
  Step A = Failing m.State (BuildError m.Error) A

  -- An error, or nil, of a library call that changes nothing.
  abbrev pub check : BuildStep → Option m.Error → Step (Unit {0})
  check step none = return tt
  check step (some e) = throw (wrapped step e)

  -- `cache.New`
  abbrev pub new_cache : BuildStep → CacheOptions → Step m.Cache
  new_cache step opts s =
      let (r, s') = m.new_cache opts s in
      elim r [ created c ↦ (ok c, s') | failed e ↦ (err (wrapped step e), s') ]

  -- `mgr.Add`
  abbrev pub add : BuildStep → m.Cache → Step (Unit {0})
  add step c s =
      let (r, s') = m.add c s in elim r [ none ↦ (ok tt, s') | some e ↦ (err (wrapped step e), s') ]

  abbrev pub guard : Bool → BuildError m.Error → Step (Unit {0})
  guard true e = return tt
  guard false e = throw e

  -- The shared CRD cache, or one of the watcher's own with a field selector.
  unfoldable pub choose_crd_cache : WatcherBuilder m → Step m.Cache
  choose_crd_cache b = elim b.crd_cache [
    | some c ↦ return c
    | none ↦ do
      c ← new_cache creating_crd_cache (crds (some b.crd_name))
      add registering_crd_cache c
      return c
  ]

  unfoldable pub create_object_cache : WatcherBuilder m → Step m.Cache
  create_object_cache b = do
    c ← new_cache creating_object_cache (objects true b.default_namespaces)
    add registering_object_cache c
    return c

  -- The handler that was set, or the one for the owner. With neither, `Build` has failed before.
  unfoldable pub choose_handler : WatcherBuilder m → Step m.Handler
  choose_handler b = elim b.owner_type [
    | some o ↦ do
      check deriving_owner_gvk (m.gvk_for_owner o)
      return (m.enqueue_for_owner o b.owner_opts)
    | none ↦ elim b.obj_handler [ some h ↦ return h | none ↦ throw handler_required ]
  ]

  abbrev pub choose_requeue : WatcherBuilder m → Step m.Requeue
  choose_requeue b = elim b.requeue_all [ some fn ↦ return fn | none ↦ throw crd_change_required ]

  -- The checks at the head of `Build`, before anything is created.
  unfoldable pub validate : WatcherBuilder m → Step m.Requeue
  validate b = do
    guard (validate_crd_name (codes b.crd_name)) bad_crd_name
    guard (is_some b.obj_handler || is_some b.owner_type) handler_required
    guard (not (is_some b.obj_handler && is_some b.owner_type)) mutually_exclusive
    requeue_all ← choose_requeue b
    check deriving_gvk m.gvk_for_type
    return requeue_all

  -- The watcher that the last lines of `Build` put together.
  unfoldable pub assemble :
      (ℕ → ℕ) → WatcherBuilder m → m.Requeue → m.Cache → m.Cache → m.Handler → Built m
  assemble upper b requeue_all crd_cache obj_cache obj_handler = record {
    watcher =
        new_watcher b.crd_name
          (if is_empty b.condition_type
            then condition_type_from_crd_name upper (codes b.crd_name)
            else b.condition_type)
          (is_some b.recorder);
    obj_cache = obj_cache;
    crd_cache = crd_cache;
    obj_handler = obj_handler;
    predicates = b.predicates;
    requeue_all = requeue_all;
    sync_timeout = if b.sync_timeout == 0 then default_sync_timeout else b.sync_timeout;
  }

  unfoldable pub build : (ℕ → ℕ) → WatcherBuilder m → Step (Built m)
  build upper b = do
    requeue_all ← validate b
    crd_cache ← choose_crd_cache b
    obj_cache ← create_object_cache b
    obj_handler ← choose_handler b
    return (assemble upper b requeue_all crd_cache obj_cache obj_handler)
