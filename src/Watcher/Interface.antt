-- ===== src/Watcher/Interface.antt =====
-- What pkg/dynamicwatch/watcher.go takes from controller-runtime and from its caller: the private
-- object cache, the object source and the callback `RequeueParentsFn`.
use dynamic_crd_watch.Base.{ℕ, String, ◌≡◌, Bool, false, not, Option, none, some, List}

-- `reconcile.Request`, which is `client.ObjectKey` too.
pub record Request : Type 0 where
  pub namespace : String
  pub name : String

-- `client.ObjectList`: the items, and the count of those that a paged answer leaves out.
pub record ObjectList (Object : Type 0) : Type 0 where
  pub items : List Object
  pub remaining_item_count : Option ℕ

-- `Outside` is the private cache together with the cluster behind it. A read takes the caller's
-- object or list as it stands, and returns its error with what the object or list holds after it.
-- The last fields are what controller-runtime documents: `RemoveInformer` without an error leaves
-- no informer, and a cache with `ReaderFailOnMissingInformer` fails every read while it has no
-- informer, and with `ErrResourceNotCached` just then.
pub record Runtime : Type 1 where
  pub Outside : Type 0
  pub Error : Type 0
  pub Object : Type 0
  pub ListOptions : Type 0
  pub has_informer : Outside → Bool
  pub start_source : Outside → Option Error × Outside
  pub remove_informer : Outside → Option Error × Outside
  pub get : Outside → Request → Object → Option Error × Object
  pub list : Outside → ListOptions → ObjectList Object → Option Error × ObjectList Object
  pub is_not_cached : Error → Bool
  pub requeue_all : Outside → List Request
  pub removes :
      (o : Outside) → (remove_informer o).0 ≡ none → has_informer (remove_informer o).1 ≡ false
  pub get_missing :
      (o : Outside) (key : Request) (obj : Object)
      → has_informer o ≡ false
      → (e : Error) × ((get o key obj).0 ≡ some e)
  pub get_failed :
      (o : Outside) (key : Request) (obj : Object) (e : Error)
      → (get o key obj).0 ≡ some e
      → is_not_cached e ≡ not (has_informer o)
  pub list_missing :
      (o : Outside) (opts : ListOptions) (l : ObjectList Object)
      → has_informer o ≡ false
      → (e : Error) × ((list o opts l).0 ≡ some e)
  pub list_failed :
      (o : Outside) (opts : ListOptions) (l : ObjectList Object) (e : Error)
      → (list o opts l).0 ≡ some e
      → is_not_cached e ≡ not (has_informer o)
