-- ===== src/Builder/Options.antt =====
-- pkg/dynamicwatch/builder.go: `WatcherBuilder` and its methods. `none` is a panic.
use dynamic_crd_watch.Base.{
  ℕ, zero, suc, String, Bool, Option, none, some, List, [], ◌∷◌, ◌++◌, str_eq, if◌then◌else◌,
}
use dynamic_crd_watch.Base.Text.{Text}
use dynamic_crd_watch.Builder.Library.{Manager}

-- A `time.Duration` in nanoseconds; `negsuc n` is -(n + 1).
pub data Duration : Type 0 where
  pos : ℕ → Duration
  negsuc : ℕ → Duration

-- The manager itself is a parameter; a nil pointer, interface or function is `none`, and a condition
-- type or a timeout that is not set is empty or 0.
pub record WatcherBuilder (m : Manager) : Type 0 where
  pub crd_name : String
  pub condition_type : Text
  pub crd_cache : Option m.Cache
  pub obj_handler : Option m.Handler
  pub owner_type : Option m.Owner
  pub owner_opts : List m.OwnerOption
  pub predicates : List m.Predicate
  pub requeue_all : Option m.Requeue
  pub default_namespaces : Option (List String)
  pub sync_timeout : ℕ
  pub recorder : Option m.Recorder

-- `For`; whether the manager is given is whether `mgr` is not nil.
unfoldable pub for_crd : (m : Manager) → (mgr : Bool) → String → Option (WatcherBuilder m)
for_crd m mgr crd_name =
    if mgr
    then some (record {
      crd_name = crd_name;
      condition_type = [];
      crd_cache = none;
      obj_handler = none;
      owner_type = none;
      owner_opts = [];
      predicates = [];
      requeue_all = none;
      default_namespaces = none;
      sync_timeout = 0;
      recorder = none;
    })
    else none

-- `b.defaultNamespaces[ns] = cache.Config{}`, on the keys of the map.
unfoldable pub insert_key : String → List String → List String
insert_key k [] = k ∷ []
insert_key k (j ∷ ks) = if str_eq j k then j ∷ ks else j ∷ insert_key k ks

unfoldable pub insert_keys : List String → List String → List String
unfolding insert_key
insert_keys [] keys = keys
insert_keys (ns ∷ rest) keys = insert_keys rest (insert_key ns keys)

module _ {m : Manager} where
  unfoldable pub with_crd_cache : Option m.Cache → WatcherBuilder m → Option (WatcherBuilder m)
  with_crd_cache none b = none
  with_crd_cache (some c) b = some (record b { crd_cache = some c })

  unfoldable pub with_event_handler :
      Option m.Handler → WatcherBuilder m → Option (WatcherBuilder m)
  with_event_handler none b = none
  with_event_handler (some h) b = some (record b { obj_handler = some h })

  unfoldable pub enqueue_for_owner :
      Option m.Owner → List m.OwnerOption → WatcherBuilder m → Option (WatcherBuilder m)
  enqueue_for_owner none opts b = none
  enqueue_for_owner (some o) opts b = some (record b { owner_type = some o; owner_opts = opts })

  unfoldable pub with_predicates : List m.Predicate → WatcherBuilder m → WatcherBuilder m
  with_predicates preds b = record b { predicates = b.predicates ++ preds }

  unfoldable pub with_namespaces : List String → WatcherBuilder m → WatcherBuilder m
  unfolding insert_keys
  with_namespaces namespaces b = record b { default_namespaces = some (insert_keys namespaces []) }

  -- The function may be nil: `Build` refuses that.
  unfoldable pub enqueue_on_crd_change : Option m.Requeue → WatcherBuilder m → WatcherBuilder m
  enqueue_on_crd_change fn b = record b { requeue_all = fn }

  unfoldable pub with_sync_timeout : Duration → WatcherBuilder m → Option (WatcherBuilder m)
  with_sync_timeout (pos zero) b = none
  with_sync_timeout (pos (suc n)) b = some (record b { sync_timeout = suc n })
  with_sync_timeout (negsuc n) b = none

  unfoldable pub with_event_recorder :
      Option m.Recorder → WatcherBuilder m → Option (WatcherBuilder m)
  with_event_recorder none b = none
  with_event_recorder (some r) b = some (record b { recorder = some r })

  unfoldable pub with_condition_type : Text → WatcherBuilder m → Option (WatcherBuilder m)
  with_condition_type [] b = none
  with_condition_type (c ∷ cs) b = some (record b { condition_type = c ∷ cs })
