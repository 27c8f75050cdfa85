-- ===== src/Builder/Library.antt =====
-- What pkg/dynamicwatch/builder.go takes from controller-runtime: the manager with its scheme, the
-- caches that are created for it, and the event handlers.
use dynamic_crd_watch.Base.{String, Bool, Option, List}

-- `cache.Options`, with the fields that the program sets: for CRD objects alone, with a field selector
-- on `metadata.name` or none; or for all objects, in some namespaces or, with `none`, in all of them.
-- A cache of CRDs trims its objects by `transformCRDForCache`.
pub data CacheOptions : Type 0 where
  crds : (field : Option String) → CacheOptions
  objects :
      (reader_fail_on_missing_informer : Bool) (namespaces : Option (List String)) → CacheOptions

pub data Created (Error Cache : Type 0) : Type 0 where
  created : Cache → Created Error Cache
  failed : Error → Created Error Cache

-- `State` is the state of the manager. `gvk_for_type` and `gvk_for_owner` are `apiutil.GVKForObject`
-- with the manager's scheme, for the watched type and for an owner.
pub record Manager : Type 1 where
  pub State : Type 0
  pub Error : Type 0
  pub Cache : Type 0
  pub Handler : Type 0
  pub Owner : Type 0
  pub OwnerOption : Type 0
  pub Predicate : Type 0
  pub Requeue : Type 0
  pub Recorder : Type 0
  pub gvk_for_type : Option Error
  pub gvk_for_owner : Owner → Option Error
  pub new_cache : CacheOptions → State → Created Error Cache × State
  pub add : Cache → State → Option Error × State
  pub enqueue_for_owner : Owner → List OwnerOption → Handler
