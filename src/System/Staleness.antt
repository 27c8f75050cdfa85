-- ===== src/System/Staleness.antt =====
-- A sync waiter of pkg/dynamicwatch/watcher.go that was started before a tear-down never promotes the
-- watcher after it.
use native.Mathlib.Nat.{zero-add, suc-add, le_refl}
use dynamic_crd_watch.Base.{ℕ, suc, ◌+◌, ◌^◌, ◌≤◌, ◌<◌, ◌≡◌, true, false, some, arith}
use dynamic_crd_watch.Watcher.{
  Runtime, promote, fail_sync, start, ensure, mark_present, mark_removed, tear_down, requeue,
  handle_cache_invalidated, clean_up, announce, finish,
}
use dynamic_crd_watch.System.{System, Step, starts, crd_going, invalidates, Reach, after}
use dynamic_crd_watch.System.Invariant.{gen_of, IsConsistent}
use dynamic_crd_watch.System.Safety.{Reach-IsConsistent}

-- `t` comes `k` steps after `s`.
pub data Run {rt : Runtime} (s : System rt) : ℕ → System rt → Type 1 where
  here : Run s 0 s
  next : {k : ℕ} {t u : System rt} → Run s k t → Step t u → Run s (suc k) u

generation_monotone :
    {rt : Runtime} {n : ℕ} {s t : System rt}
    → Step s t
    → suc n < 2 ^ 64
    → IsConsistent n s.world
    → s.generation ≤ t.generation
unfolding start mark_present mark_removed tear_down requeue ensure handle_cache_invalidated promote
    fail_sync clean_up announce finish
generation_monotone (starts e) small c = ground arith
generation_monotone _ small c = ground arith

-- A run extends what was reached, and the generation only grows along it.
pub Run-extends :
    {rt : Runtime} {n : ℕ} {s : System rt} {k : ℕ} {t : System rt}
    → Reach n s
    → Run s k t
    → n + k < 2 ^ 64
    → Reach (k + n) t × (s.generation ≤ t.generation)
Run-extends {n} r here small = rw zero-add (r, le_refl _)
Run-extends {n} r (next {k} run st) small =
    let (r', le) = Run-extends r run (omega arith) in
    (
      rw suc-add (after r' st),
      omega (arith, generation_monotone st (omega arith) (Reach-IsConsistent r' (omega arith))),
    )

-- The steps that take the watch down: the CRD goes away, or a read finds no informer.
abbrev pub IsTakeDown : {rt : Runtime} {s t : System rt} → Step s t → Type 0
IsTakeDown (crd_going crd src at gone) = Unit
IsTakeDown (invalidates j at) = Unit
IsTakeDown _ = ⊥

take_down_generation :
    {rt : Runtime} {n : ℕ} {s t : System rt} (st : Step s t)
    → IsTakeDown st
    → suc n < 2 ^ 64
    → IsConsistent n s.world
    → t.generation ≡ suc s.generation
unfolding mark_removed handle_cache_invalidated
take_down_generation (crd_going crd src at gone) d small c = ground arith
take_down_generation (invalidates j at) d small c = ground arith
take_down_generation _ d small c = elim d [ ]

-- A waiter that has not taken the lock when the watch is taken down never promotes the watcher, nor
-- resets it, however the run goes on (for fewer than 2 ^ 64 steps in all): at any later time
-- both of its locked sections find it stale and leave everything as it is.
pub never_promoted :
    {rt : Runtime} {n k : ℕ} {s t u : System rt} (i gen : ℕ)
    → Reach n s
    → gen_of (s.waiters i) ≡ some gen
    → (st : Step s t) → IsTakeDown st
    → Run t k u
    → suc n + k < 2 ^ 64
    → (promote gen u.world ≡ (false, u.world)) × (fail_sync gen u.world ≡ (true, u.world))
unfolding promote fail_sync
never_promoted i gen r at st d run small =
    let c = Reach-IsConsistent r (omega arith) in
    let up = take_down_generation st d (omega arith) c in
    let (later, le) = Run-extends (after r st) run small in ground (arith, c.gen_le i gen)
