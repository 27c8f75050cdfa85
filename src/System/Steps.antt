-- ===== src/System/Steps.antt =====
-- Every step of the goroutines of pkg/dynamicwatch/watcher.go keeps the watcher consistent.
use dynamic_crd_watch.Base.{
  ℕ, suc, ◌^◌, ◌<◌, ◌≡◌, refl, ◌⊎◌, inl, inr, Bool, true, false, not, ◌&&◌, Option, none, some,
  arith, update, Option-cases, Bool-cases, ◌==◌,
}
use dynamic_crd_watch.Watcher.{
  Runtime, Waiter, waiting, returned, cleaning, announcing, World, start, register, ensure,
  mark_present, mark_removed, tear_down, requeue, handle_cache_invalidated, fail_sync, clean_up,
  promote, announce, finish,
}
use dynamic_crd_watch.System.{
  System, Step, starts, crd_present, crd_going, tears_down, requeues, ensures, reads, misses,
  invalidates, sync_returns, sync_fails, promotes, gives_up, cleans_up, announces, changes,
  after_promote, after_fail_sync,
}
use dynamic_crd_watch.System.Invariant.{
  IsConsistent, Keeps, kept-IsConsistent, invalidated-IsConsistent, register-IsConsistent,
  moved-IsConsistent, ended-IsConsistent, settled-IsConsistent,
}

module _ {rt : Runtime} {n : ℕ} {w : World rt} (c : IsConsistent n w) where
  removed-IsConsistent : suc n < 2 ^ 64 → IsConsistent (suc n) (mark_removed w).2
  removed-IsConsistent small =
      kept-IsConsistent (invalidated-IsConsistent c small) (omega arith) same
    where
      same : Keeps (handle_cache_invalidated w) (mark_removed w).2
      same = unfold mark_removed handle_cache_invalidated in ground arith

  start-IsConsistent : (e : Option rt.Error) → IsConsistent (suc n) (start e w).1
  unfolding start
  start-IsConsistent e = kept-IsConsistent c (omega arith) (ground arith)

  present-IsConsistent : IsConsistent (suc n) (mark_present w).1
  unfolding mark_present
  present-IsConsistent = kept-IsConsistent c (omega arith) (ground arith)

  tear_down-IsConsistent : (a b : Bool) → IsConsistent (suc n) (tear_down a b w)
  unfolding tear_down
  tear_down-IsConsistent a b = kept-IsConsistent c (omega arith) (ground arith)

  requeue-IsConsistent : IsConsistent (suc n) (requeue w)
  unfolding requeue
  requeue-IsConsistent = kept-IsConsistent c (omega arith) (ground arith)

  outside-IsConsistent : (o : rt.Outside) → IsConsistent n (record w { outside = o })
  outside-IsConsistent o = kept-IsConsistent c (omega arith) (ground arith)

  promote-IsConsistent :
      (i gen : ℕ)
      → w.waiters i ≡ returned gen none
      → IsConsistent (suc n) (after_promote i (promote gen w))
  unfolding promote finish
  promote-IsConsistent i gen at = elim (Bool-cases (w.generation == gen)) [
    | inl same ↦
        rw (same, promote)
          (settled-IsConsistent c i announcing (ground arith) refl (ground arith) refl
            (inl (refl, refl)))
    | inr stale ↦
        rw (stale, promote)
          (ended-IsConsistent c i Waiter.done (ground arith) refl (ground arith) (ground arith)
            refl)
  ]

  fail_sync-IsConsistent :
      (i gen : ℕ) (e : rt.Error)
      → w.waiters i ≡ returned gen (some e)
      → IsConsistent (suc n) (after_fail_sync i e (fail_sync gen w))
  unfolding fail_sync finish
  fail_sync-IsConsistent i gen e at = elim (Bool-cases (w.generation == gen)) [
    | inl same ↦
        rw (same, fail_sync)
          (settled-IsConsistent c i (cleaning e) (ground arith) refl (ground arith) refl
            (inr (refl, refl)))
    | inr stale ↦
        rw (stale, fail_sync)
          (ended-IsConsistent c i Waiter.done (ground arith) refl (ground arith) (ground arith)
            refl)
  ]

  clean_up-IsConsistent :
      (i : ℕ) (e : rt.Error)
      → w.waiters i ≡ cleaning e
      → IsConsistent (suc n) (finish i (clean_up w))
  unfolding clean_up finish
  clean_up-IsConsistent i e at =
      ended-IsConsistent c i Waiter.done (ground arith) refl (ground arith) (ground arith)
        (ground arith)

  announce-IsConsistent :
      (i : ℕ) → w.waiters i ≡ announcing → IsConsistent (suc n) (finish i (announce w))
  unfolding announce finish
  announce-IsConsistent i at =
      ended-IsConsistent c i Waiter.done (ground arith) refl (ground arith) (ground arith)
        (ground arith)

  returned-IsConsistent :
      (i gen : ℕ) (e : Option rt.Error)
      → w.waiters i ≡ waiting gen
      → IsConsistent (suc n) (record w { waiters = update w.waiters i (returned gen e) })
  returned-IsConsistent i gen e at =
      moved-IsConsistent c i (returned gen e) (ground arith) (ground arith) (ground arith) refl

-- `Ensure` changes nothing that the consistency rests on, or it registers the watch.
ensure_cases :
    {rt : Runtime} (w : World rt)
    → (o : rt.Outside) × (((ensure w).1 ≡ record w { outside = o })
        ⊎ ((w.started ≡ true)
            × (w.active ≡ false)
            × (w.crd_exists ≡ true)
            × (w.watching ≡ false)
            × ((ensure w).1 ≡ register (record w { outside = o }))))
unfolding ensure
ensure_cases {rt} w =
    elim (Bool-cases (w.started && not w.active && w.crd_exists && not w.watching)) [
      | inl free ↦ elim (Option-cases (rt.start_source w.outside).0) [
        | inl e ↦ (
          (rt.start_source w.outside).1,
          inr (ground arith, ground arith, ground arith, ground arith, ground arith),
        )
        | inr (x, e) ↦ ((rt.start_source w.outside).1, inl (ground arith))
      ]
      | inr shut ↦ (w.outside, inl (ground arith))
    ]

module _ {rt : Runtime} {n : ℕ} {w : World rt} (c : IsConsistent n w) where
  ensure-IsConsistent : IsConsistent (suc n) (ensure w).1
  ensure-IsConsistent =
      let (o, outcome) = ensure_cases w in
      elim outcome [
        | inl e ↦ rw e (kept-IsConsistent c (omega arith) (ground arith))
        | inr (st, inactive, exists, idle, e) ↦
            rw e (register-IsConsistent (outside-IsConsistent c o) st inactive exists idle)
      ]

-- Every step that is within the generations of a uint64 keeps the watcher consistent.
pub Step-IsConsistent :
    {rt : Runtime} {n : ℕ} {s t : System rt}
    → Step s t
    → suc n < 2 ^ 64
    → IsConsistent n s.world
    → IsConsistent (suc n) t.world
Step-IsConsistent (starts e) small c = start-IsConsistent c e
Step-IsConsistent (crd_present crd src at usable) small c = present-IsConsistent c
Step-IsConsistent (crd_going crd src at gone) small c = removed-IsConsistent c small
Step-IsConsistent (tears_down {was_watching} {was_ready} at) small c =
    tear_down-IsConsistent c was_watching was_ready
Step-IsConsistent (requeues at) small c = requeue-IsConsistent c
Step-IsConsistent (ensures j at st) small c = ensure-IsConsistent c
Step-IsConsistent (reads j at there) small c = kept-IsConsistent c (omega arith) (ground arith)
Step-IsConsistent (misses j at gone) small c = kept-IsConsistent c (omega arith) (ground arith)
Step-IsConsistent (invalidates j at) small c = invalidated-IsConsistent c small
Step-IsConsistent (sync_returns i {gen} at there) small c = returned-IsConsistent c i gen none at
Step-IsConsistent (sync_fails i {gen} e at) small c = returned-IsConsistent c i gen (some e) at
Step-IsConsistent (promotes i {gen} at) small c = promote-IsConsistent c i gen at
Step-IsConsistent (gives_up i {gen} {e} at) small c = fail_sync-IsConsistent c i gen e at
Step-IsConsistent (cleans_up i {e} at) small c = clean_up-IsConsistent c i e at
Step-IsConsistent (announces i at) small c = announce-IsConsistent c i at
Step-IsConsistent (changes o stays) small c = kept-IsConsistent c (omega arith) (ground arith)
