-- ===== src/Tests/Naming.antt =====
-- Names of CRDs with their condition types, CRDs, and instances of the theorems on them.
use dynamic_crd_watch.Base.{ℕ, String, ◌≡◌, ◌↔◌, refl, true, false, none, codes, arith}
use dynamic_crd_watch.Crd.{
  Crd, crd, other, is_zero, crd_removed, crd_name_predicate, transform_crd_for_cache,
}
use dynamic_crd_watch.Crd.Laws.{FirstEstablished, trimmed_iff}
use dynamic_crd_watch.Builder.{validate_crd_name}
use dynamic_crd_watch.Builder.Names.{IsQualified, validate_crd_name_iff}
use dynamic_crd_watch.Condition.Naming.{before_dot, condition_type_from_crd_name}
use dynamic_crd_watch.Condition.Collisions.{condition_type_iff}
use dynamic_crd_watch.Tests.Building.{no_upper}
use dynamic_crd_watch.Tests.Watching.{established}

derived :
    condition_type_from_crd_name no_upper (codes "httproutes.gateway.networking.k8s.io")
    ≡ codes "HTTPRoutesAvailable"
unfolding condition_type_from_crd_name
derived = refl

derived_sets :
    condition_type_from_crd_name no_upper (codes "leaderworkersets.leaderworkerset.x-k8s.io")
    ≡ codes "LeaderworkersetsAvailable"
unfolding condition_type_from_crd_name
derived_sets = refl

condition_type_iff_example :
    (condition_type_from_crd_name no_upper (codes "a.b")
      ≡ condition_type_from_crd_name no_upper (codes "a.c"))
    ↔ (before_dot (codes "a.b") ≡ before_dot (codes "a.c"))
condition_type_iff_example =
    condition_type_iff no_upper (codes "a.b") (codes "a.c")
      (omega arith, refl, (omega arith, refl, (omega arith, refl, tt)))
      (omega arith, refl, (omega arith, refl, (omega arith, refl, tt)))

validate_crd_name_iff_example :
    (validate_crd_name (codes "themes.demo.io") ≡ true) ↔ IsQualified (codes "themes.demo.io")
validate_crd_name_iff_example = validate_crd_name_iff (codes "themes.demo.io")

trimmed_iff_example :
    (c' : Crd ℕ) × (transform_crd_for_cache {Other = String} 0 (crd established) ≡ crd c')
    × ((crd_removed c' ≡ false) ↔ ((is_zero none ≡ true) × FirstEstablished established.conditions))
    × ((crd_name_predicate "a.b" c' ≡ true) ↔ (established.name ≡ "a.b"))
    × (c'.spec ≡ 0)
    × (transform_crd_for_cache {Other = String} 0 (crd c') ≡ crd c')
    × (transform_crd_for_cache {Spec = ℕ} {Other = String} 0 (other "pod") ≡ other "pod")
trimmed_iff_example = trimmed_iff String 0 established "a.b" "pod"
