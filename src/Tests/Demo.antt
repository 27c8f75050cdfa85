-- ===== src/Tests/Demo.antt =====
-- A cluster with one object, and the runtime, the manager and the API over it.
use dynamic_crd_watch.Base.{
  String, ◌≡◌, refl, Bool, true, false, not, Option, none, some, arith, [], ◌∷◌, codes, str_eq,
  if◌then◌else◌,
}
use dynamic_crd_watch.Watcher.{Request, ObjectList, Runtime, World, new_watcher, new_world}

pub data DemoError : Type 0 where
  not_cached not_found : DemoError

abbrev pub demo_is_not_cached : DemoError → Bool
demo_is_not_cached not_cached = true
demo_is_not_cached not_found = false

-- The state outside is whether there is an informer; the one object is named "dark".
abbrev pub demo_get : Bool → Request → String → Option DemoError × String
demo_get true key obj =
    if str_eq key.name "dark" then (none, "dark-setting") else (some not_found, obj)
demo_get false key obj = (some not_cached, obj)

abbrev pub demo_list : Bool → String → ObjectList String → Option DemoError × ObjectList String
demo_list true opts l = (none, record { items = "dark-setting" ∷ []; remaining_item_count = none })
demo_list false opts l = (some not_cached, l)

abbrev pub parent : Request
parent = record { namespace = "default"; name = "widget" }

pub demo_get_missing :
    (o : Bool) (key : Request) (obj : String)
    → o ≡ false
    → (e : DemoError) × ((demo_get o key obj).0 ≡ some e)
demo_get_missing true key obj h = absurd (ground arith)
demo_get_missing false key obj h = (not_cached, refl)

pub demo_get_failed :
    (o : Bool) (key : Request) (obj : String) (e : DemoError)
    → (demo_get o key obj).0 ≡ some e
    → demo_is_not_cached e ≡ not o
demo_get_failed true key obj not_cached h = ground arith
demo_get_failed true key obj not_found h = refl
demo_get_failed false key obj not_cached h = refl
demo_get_failed false key obj not_found h = ground arith

pub demo_list_missing :
    (o : Bool) (opts : String) (l : ObjectList String)
    → o ≡ false
    → (e : DemoError) × ((demo_list o opts l).0 ≡ some e)
demo_list_missing true opts l h = absurd (ground arith)
demo_list_missing false opts l h = (not_cached, refl)

pub demo_list_failed :
    (o : Bool) (opts : String) (l : ObjectList String) (e : DemoError)
    → (demo_list o opts l).0 ≡ some e
    → demo_is_not_cached e ≡ not o
demo_list_failed true opts l e h = ground arith
demo_list_failed false opts l not_cached h = refl
demo_list_failed false opts l not_found h = ground arith

-- The source always starts, and the informer is there at once.
abbrev pub demo : Runtime
demo = record {
  Outside = Bool;
  Error = DemoError;
  Object = String;
  ListOptions = String;
  has_informer = λ o. o;
  start_source = λ o. (none, true);
  remove_informer = λ o. (none, false);
  get = demo_get;
  list = demo_list;
  is_not_cached = demo_is_not_cached;
  requeue_all = λ o. parent ∷ [];
  removes = λ o e. refl;
  get_missing = demo_get_missing;
  get_failed = demo_get_failed;
  list_missing = demo_list_missing;
  list_failed = demo_list_failed;
}

abbrev pub demo_world : World demo
demo_world = new_world demo (new_watcher "themes.demo.io" (codes "ThemeAvailable") true) false

-- A watcher whose CRD is known, before `Ensure` and after its sync.
abbrev pub known_world : World demo
known_world = record demo_world {
  watcher = record (demo_world.watcher) { started = true; crd_src = true; crd_exists = true };
}

abbrev pub ready_world : World demo
ready_world = record known_world {
  watcher = record (known_world.watcher) { watching = true; active = true };
  outside = true;
  gauge = true;
}

abbrev pub dark : Request
dark = record { namespace = "default"; name = "dark" }

abbrev pub light : Request
light = record { namespace = "default"; name = "light" }
