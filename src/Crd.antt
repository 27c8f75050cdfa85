-- ===== src/Crd.antt =====
-- pkg/dynamicwatch/watcher.go: what the watcher reads of a CustomResourceDefinition (its name, its
-- deletion timestamp and its status conditions), the name predicate of the shared CRD cache, and the
-- transform that trims an object before the cache stores it. The types of the spec and of the
-- metadata that only the transform touches belong to the Kubernetes API: they are parameters.
pub mod Laws
use dynamic_crd_watch.Base.{
  ℕ, String, ◌≡◌, Bool, true, false, not, ◌||◌, Option, none, some, List, [], ◌∷◌, str_eq, ◌==◌,
  if◌then◌else◌,
}

pub record CrdCondition : Type 0 where
  pub type : String
  pub status : String

-- A timestamp is a number of seconds, 0 for the zero time.
pub record Crd (Spec : Type 0) : Type 0 where
  pub name : String
  pub deletion_timestamp : Option ℕ
  pub spec : Spec
  pub managed_fields : List String
  pub annotations : List (String × String)
  pub conditions : List CrdCondition

-- `(*metav1.Time).IsZero`: a nil pointer or the zero time.
abbrev pub is_zero : Option ℕ → Bool
is_zero none = true
is_zero (some t) = t == 0

-- The loop of `isCRDEstablished`: the first condition of type Established decides.
unfoldable pub established_in : List CrdCondition → Bool
established_in [] = false
established_in (c ∷ cs) =
    if str_eq c.type "Established" then str_eq c.status "True" else established_in cs

module _ {Spec : Type 0} where
  unfoldable pub is_crd_established : Crd Spec → Bool
  unfolding established_in
  is_crd_established crd = established_in crd.conditions

  -- The test at the head of `onCRDChange`.
  unfoldable pub crd_removed : Crd Spec → Bool
  crd_removed crd = not (is_zero crd.deletion_timestamp) || not (is_crd_established crd)

  unfoldable pub crd_name_predicate : String → Crd Spec → Bool
  crd_name_predicate name crd = str_eq crd.name name

-- What an informer hands to a transform: `obj any`, with the one type that the code asserts.
pub data CacheObject (Spec Other : Type 0) : Type 0 where
  crd : Crd Spec → CacheObject Spec Other
  other : Other → CacheObject Spec Other

-- The error of `transformCRDForCache` is always nil, and is left out.
unfoldable pub transform_crd_for_cache :
    {Spec Other : Type 0} → Spec → CacheObject Spec Other → CacheObject Spec Other
transform_crd_for_cache empty_spec (crd c) =
    crd (record c { spec = empty_spec; managed_fields = []; annotations = [] })
transform_crd_for_cache empty_spec (other o) = other o
