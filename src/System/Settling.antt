-- ===== src/System/Settling.antt =====
-- What becomes of a watch of pkg/dynamicwatch/watcher.go that is registered, however its goroutines are
-- interleaved.
use dynamic_crd_watch.Base.{
  ℕ, ◌+◌, ◌^◌, ◌<◌, ◌≡◌, ◌⊎◌, inl, inr, sym, ◌∙◌, true, false, arith, ◌==◌, Bool-cases, dec_lt,
}
use dynamic_crd_watch.Watcher.{
  Runtime, cleaning, start, ensure, mark_present, mark_removed, tear_down, requeue,
  handle_cache_invalidated, promote, fail_sync, clean_up, announce, finish,
}
use dynamic_crd_watch.System.{
  System, Step, tears_down, invalidates, sync_returns, sync_fails, promotes, gives_up, cleans_up,
  announces, Reach,
}
use dynamic_crd_watch.System.Invariant.{IsConsistent}
use dynamic_crd_watch.System.Safety.{Reach-IsConsistent}
use dynamic_crd_watch.System.Staleness.{Run, here, next, Run-extends}
use dynamic_crd_watch.System.Requeues.{requeues_parents, requeued, Told, requeued-Told}
use dynamic_crd_watch.System.Wakeups.{invalidates_cache, invalidated}
use dynamic_crd_watch.System.Work.{is_input}
use dynamic_crd_watch.System.Quiescence.{AreDone, AreDone-registered}
use dynamic_crd_watch.System.Rest.{has_input}

-- A sync waiter is about to remove the informer of a failed sync, and to requeue the parents.
abbrev IsCleaning : {rt : Runtime} → System rt → Type 0
IsCleaning {rt} s = (i : ℕ) × (e : rt.Error) × (s.waiters i ≡ cleaning e)

Step-registered :
    {rt : Runtime} {n : ℕ} {s t : System rt} (st : Step s t)
    → IsConsistent n s.world
    → is_input st ≡ false
    → invalidates_cache st ≡ false
    → s.watching ≡ true
    → (t.watching ≡ true) ⊎ IsCleaning t
unfolding start mark_present mark_removed tear_down requeue ensure handle_cache_invalidated promote
    fail_sync clean_up announce finish
Step-registered (tears_down {was_watching} {was_ready} at) c internal calm watching =
    inl (ground arith)
Step-registered {s = s} (gives_up i {gen} {e} at) c internal calm watching =
    elim (Bool-cases (s.generation == gen)) [
      | inl same ↦ inr (i, e, ground arith)
      | inr stale ↦ inl (ground arith)
    ]
Step-registered (promotes i {gen} at) c internal calm watching = inl (ground arith)
Step-registered (cleans_up i at) c internal calm watching = inl (ground arith)
Step-registered (announces i at) c internal calm watching = inl (ground arith)
Step-registered (invalidates j at) c internal calm watching = absurd (ground arith)
Step-registered _ c internal calm watching = inl (ground arith)

Step-IsCleaning :
    {rt : Runtime} {s t : System rt} (st : Step s t)
    → is_input st ≡ false
    → requeues_parents st ≡ false
    → IsCleaning s
    → IsCleaning t
unfolding start mark_present mark_removed tear_down requeue ensure handle_cache_invalidated promote
    fail_sync clean_up announce finish
Step-IsCleaning (tears_down at) internal quiet (i, e, h) = (i, e, ground arith)
Step-IsCleaning (promotes j {gen} at) internal quiet (i, e, h) = (i, e, ground arith)
Step-IsCleaning (gives_up j {e = x} at) internal quiet (i, e, h) = (i, e, ground arith)
Step-IsCleaning (sync_returns j {gen} at there) internal quiet (i, e, h) = (i, e, ground arith)
Step-IsCleaning (sync_fails j {gen} x at) internal quiet (i, e, h) = (i, e, ground arith)
Step-IsCleaning _ internal quiet (i, e, h) = (i, e, ground arith)

-- Along a run without inputs and invalidations: the watch is registered, or its waiter has failed and is
-- about to requeue the parents, or they have been requeued.
Run-registered :
    {rt : Runtime} {n : ℕ} {s : System rt} {k : ℕ} {t : System rt}
    → Reach n s
    → (run : Run s k t) → n + k < 2 ^ 64
    → has_input run ≡ false
    → invalidated run ≡ false
    → requeued run ≡ false
    → s.watching ≡ true
    → (t.watching ≡ true) ⊎ IsCleaning t
Run-registered r here small internal calm quiet watching = inl watching
Run-registered {n = n} r (next {k} {t} run st) small internal calm quiet watching =
    let (r', _) = Run-extends r run (omega arith) in
    let c = Reach-IsConsistent r' (omega arith) in
    elim (Run-registered r run (omega arith) (ground arith) (ground arith) (ground arith)
      watching) [
        | inl still ↦ Step-registered st c (ground arith) (ground arith) still
        | inr failed ↦ inr (Step-IsCleaning st (ground arith) (ground arith) failed)
      ]

settled_free :
    {rt : Runtime} {n : ℕ} (t : System rt) → IsConsistent n t.world → AreDone t → IsCleaning t → ⊥
settled_free t c ended (i, e, at) = elim (dec_lt i t.next_waiter) [
  | yes lt ↦ ground (arith, ended i lt)
  | no over ↦ ground (arith, c.later i)
]

-- A watch that is registered is not forgotten: take a run with no input (of fewer than 2 ^ 64 steps in
-- all), none of whose steps is the invalidation by a read that found no informer. Once every sync
-- waiter has ended, whatever the order of the steps and however the syncs ended, the watcher is
-- ready, or the run has added to the work queue all the requests that `requeueAll` returns for the
-- cluster and the cache as they were after one of its steps.
pub registered_settles :
    {rt : Runtime} {n k : ℕ} {s t : System rt}
    → Reach n s
    → s.watching ≡ true
    → (run : Run s k t) → n + k < 2 ^ 64
    → has_input run ≡ false
    → invalidated run ≡ false
    → AreDone t
    → (t.active ≡ true) ⊎ Told run
registered_settles {t = t} r watching run small internal calm ended =
    let (r', _) = Run-extends r run small in
    let c = Reach-IsConsistent r' (omega arith) in
    elim (Bool-cases (requeued run)) [
      | inl told ↦ inr (requeued-Told run told)
      | inr quiet ↦ elim (Run-registered r run small internal calm quiet watching) [
        | inl still ↦ inl (sym (AreDone-registered r' (omega arith) ended) ∙ still)
        | inr failed ↦ absurd (settled_free t c ended failed)
      ]
    ]
