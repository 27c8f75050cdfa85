-- ===== src/System/Bounds.antt =====
-- The generation of a watcher of pkg/dynamicwatch/watcher.go is a uint64 that counts the take-downs.
use dynamic_crd_watch.Base.{
  ℕ, suc, ◌%◌, ◌^◌, ◌≤◌, ◌<◌, ◌≡◌, Bool, true, false, arith, if◌then◌else◌,
}
use dynamic_crd_watch.Watcher.{
  Runtime, next_generation, start, ensure, mark_present, mark_removed, tear_down, requeue,
  handle_cache_invalidated, promote, fail_sync, clean_up, announce, finish,
}
use dynamic_crd_watch.System.{System, Step, starts, crd_going, invalidates, Reach, fresh, after}

-- Whether a step takes the watch down: the CRD goes away, or a read finds no informer.
abbrev pub takes_down : {rt : Runtime} {s t : System rt} → Step s t → Bool
takes_down (crd_going crd src at gone) = true
takes_down (invalidates j at) = true
takes_down _ = false

-- How many of the steps of a run do.
abbrev pub take_downs : {rt : Runtime} {n : ℕ} {s : System rt} → Reach n s → ℕ
take_downs (fresh a b r o) = 0
take_downs (after r st) = if takes_down st then suc (take_downs r) else take_downs r

takes_down-generation :
    {rt : Runtime} {s t : System rt} (st : Step s t)
    → t.generation ≡ (if takes_down st then next_generation s.generation else s.generation)
unfolding start mark_present mark_removed tear_down requeue ensure handle_cache_invalidated promote
    fail_sync clean_up announce finish
takes_down-generation (starts e) = ground arith
takes_down-generation _ = ground arith

-- However long a watcher runs, its generation is the number of its take-downs modulo 2 ^ 64, which is
-- within a uint64, and there are at most as many of them as steps.
pub generation_counts :
    {rt : Runtime} {n : ℕ} {s : System rt} (r : Reach n s)
    → (s.generation ≡ take_downs r % 2 ^ 64) × (s.generation < 2 ^ 64) × (take_downs r ≤ n)
generation_counts (fresh a b r o) = ground arith
generation_counts (after r st) =
    let (counts, _, le) = generation_counts r in ground (arith, takes_down-generation st)
