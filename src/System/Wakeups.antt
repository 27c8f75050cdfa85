-- ===== src/System/Wakeups.antt =====
-- Who is told when the availability of a watcher of pkg/dynamicwatch/watcher.go changes.
use dynamic_crd_watch.Base.{
  ℕ, ◌+◌, ◌^◌, ◌<◌, ◌≡◌, ◌≢◌, ◌⊎◌, inl, inr, refl, Bool, true, false, ◌||◌, arith, ◌∙◌, Bool-cases,
  ◌==◌,
}
use dynamic_crd_watch.Watcher.{
  Runtime, available, announcing, start, ensure, mark_present, mark_removed, tear_down, requeue,
  handle_cache_invalidated, promote, fail_sync, clean_up, announce, finish,
}
use dynamic_crd_watch.System.{
  System, CrdHandler, tearing, requeueing, Step, starts, crd_present, crd_going, tears_down,
  requeues, ensures, invalidates, promotes, gives_up, sync_returns, sync_fails, cleans_up,
  announces, Reach,
}
use dynamic_crd_watch.System.Invariant.{IsConsistent}
use dynamic_crd_watch.System.Safety.{Reach-IsConsistent}
use dynamic_crd_watch.System.Staleness.{Run, here, next, Run-extends}
use dynamic_crd_watch.System.Requeues.{requeues_parents, requeued, Told, requeued-Told}

-- The step that takes the watch down without requeuing the parents.
abbrev pub invalidates_cache : {rt : Runtime} {s t : System rt} → Step s t → Bool
invalidates_cache (invalidates j at) = true
invalidates_cache _ = false

module _ {rt : Runtime} {s : System rt} where
  abbrev pub invalidated : {k : ℕ} {t : System rt} → Run s k t → Bool
  invalidated here = false
  invalidated (next run st) = invalidates_cache st || invalidated run

-- The handler of CRD events is on its way to a requeue.
abbrev pub will_requeue : CrdHandler → Bool
will_requeue (tearing was_watching was_ready) = was_ready
will_requeue requeueing = true
will_requeue _ = false

-- The handler or a sync waiter is about to requeue the parents.
abbrev pub Owes : {rt : Runtime} → System rt → Type 0
Owes s = (will_requeue s.crd_handler ≡ true) ⊎ ((i : ℕ) × (s.waiters i ≡ announcing))

-- The availability is what it was, and the CRD was known before if it is now.
abbrev pub Unchanged : {rt : Runtime} → System rt → System rt → Type 0
Unchanged s t = (t.active ≡ s.active) × (t.crd_exists ≡ true → s.crd_exists ≡ true)

handler_owes :
    {rt : Runtime} {s t : System rt} (st : Step s t)
    → requeues_parents st ≡ false
    → will_requeue s.crd_handler ≡ true
    → will_requeue t.crd_handler ≡ true
unfolding start mark_present mark_removed tear_down requeue ensure handle_cache_invalidated promote
    fail_sync clean_up announce finish
handler_owes (crd_present crd src at usable) quiet owes = ground arith
handler_owes (crd_going crd src at gone) quiet owes = ground arith
handler_owes (tears_down {was_watching} {was_ready} at) quiet owes = ground arith
handler_owes (requeues at) quiet owes = ground arith
handler_owes _ quiet owes = ground arith

waiter_owes :
    {rt : Runtime} {n : ℕ} {s t : System rt} (st : Step s t) (i : ℕ)
    → IsConsistent n s.world
    → requeues_parents st ≡ false
    → s.waiters i ≡ announcing
    → t.waiters i ≡ announcing
unfolding start mark_present mark_removed tear_down requeue ensure handle_cache_invalidated promote
    fail_sync clean_up announce finish
waiter_owes (ensures j at st) i c quiet owes = ground (arith, c.later i)
waiter_owes (promotes j {gen} at) i c quiet owes = ground arith
waiter_owes (gives_up j {gen} {e} at) i c quiet owes = ground arith
waiter_owes (cleans_up j {e} at) i c quiet owes = ground arith
waiter_owes (announces j at) i c quiet owes = ground arith
waiter_owes (sync_returns j {gen} at there) i c quiet owes = ground arith
waiter_owes (sync_fails j {gen} e at) i c quiet owes = ground arith
waiter_owes _ i c quiet owes = ground arith

Step-Owes :
    {rt : Runtime} {s t : System rt} (st : Step s t)
    → invalidates_cache st ≡ false
    → Unchanged s t ⊎ Owes t
unfolding start mark_present mark_removed tear_down requeue ensure handle_cache_invalidated promote
    fail_sync clean_up announce finish
Step-Owes (starts e) calm = inl (ground arith)
Step-Owes {s = s} (crd_present crd src at usable) calm = elim (Bool-cases s.crd_exists) [
  | inl known ↦ inl (refl, λ h. known)
  | inr unknown ↦ inr (inl (ground arith))
]
Step-Owes {s = s} (crd_going crd src at gone) calm = elim (Bool-cases s.active) [
  | inl active ↦ inr (inl active)
  | inr inactive ↦ inl (ground arith)
]
Step-Owes {s = s} (promotes i {gen} at) calm = elim (Bool-cases (s.generation == gen)) [
  | inl same ↦ inr (inr (i, ground arith))
  | inr stale ↦ inl (ground arith)
]
Step-Owes (invalidates j at) calm = absurd (ground arith)
Step-Owes _ calm = inl (ground arith)

-- Along a run without a read that finds no informer: the parents have been requeued, or will be, or
-- the availability is what it was.
Run-told :
    {rt : Runtime} {n : ℕ} {s : System rt} {k : ℕ} {t : System rt}
    → Reach n s
    → (run : Run s k t) → n + k < 2 ^ 64
    → invalidated run ≡ false
    → requeued run ≡ false
    → Unchanged s t ⊎ Owes t
Run-told r here small calm quiet = inl (refl, λ h. h)
Run-told {n = n} r (next {k} {t} run st) small calm quiet =
    let (r', _) = Run-extends r run (omega arith) in
    let c = Reach-IsConsistent r' (omega arith) in
    let still = Run-told r run (omega arith) (ground arith) (ground arith) in
    let silent : requeues_parents st ≡ false = ground arith in
    elim still [
      | inl same ↦ elim (Step-Owes st (ground arith)) [
        | inl same' ↦ inl (same'.0 ∙ same.0, λ h. same.1 (same'.1 h))
        | inr owes ↦ inr owes
      ]
      | inr (inl owes) ↦ inr (inl (handler_owes st silent owes))
      | inr (inr (i, owes)) ↦ inr (inr (i, waiter_owes st i c silent owes))
    ]

-- Nothing that concerns the parents is kept from them: if a run (of fewer than 2 ^ 64 steps in
-- all), none of whose steps is the invalidation by a read that found no informer, changes whether
-- the watcher is available, or learns of a CRD that was not known, then it has added to the work
-- queue all the requests that `requeueAll` returns for the cluster and the cache as they were after
-- one of its steps, or the handler of CRD events or a sync waiter is about to do so.
pub change_requeues :
    {rt : Runtime} {n : ℕ} {s : System rt} {k : ℕ} {t : System rt}
    → Reach n s
    → (run : Run s k t) → n + k < 2 ^ 64
    → invalidated run ≡ false
    → (available t.watcher ≢ available s.watcher) ⊎ ((s.crd_exists ≡ false) × (t.crd_exists ≡ true))
    → Told run ⊎ Owes t
unfolding available
change_requeues r run small calm change = elim (Bool-cases (requeued run)) [
  | inl told ↦ inl (requeued-Told run told)
  | inr quiet ↦ elim (Run-told r run small calm quiet) [
    | inr owes ↦ inr owes
    | inl (same, known) ↦ elim change [
      | inl differs ↦ absurd (differs same)
      | inr (before, now) ↦ absurd (ground (arith, known now))
    ]
  ]
]
