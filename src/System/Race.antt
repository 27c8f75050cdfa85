-- ===== src/System/Race.antt =====
-- The gap between the locked section and `RemoveInformer` in `waitForSyncAndRequeue` of
-- pkg/dynamicwatch/watcher.go: another goroutine can register the watch again in between.
use dynamic_crd_watch.Base.{ℕ, ◌^◌, ◌<◌, ◌≡◌, ◌≢◌, true, false, none, arith, update}
use dynamic_crd_watch.Watcher.{Runtime, cleaning, returned, promote, ensure, clean_up, finish}
use dynamic_crd_watch.System.{
  System, away, after_ensure, goes_to, after_promote, ensures, sync_returns, promotes, cleans_up,
  changes, Reach,
}
use dynamic_crd_watch.System.Safety.{Reach-IsConsistent}
use dynamic_crd_watch.System.Staleness.{Run, here, next}

-- Reader `j` calls `Ensure`, the informer comes up, its waiter's sync returns and promotes the watcher,
-- and then the waiter `i` of the failed sync goes on.
module _ {rt : Runtime} (s : System rt) (j : ℕ) (o : rt.Outside) where
  registered : System rt
  registered = record s {
    world = (ensure s.world).1;
    readers = update s.readers j (after_ensure (ensure s.world).0);
  }

  informed : System rt
  unfolding registered
  informed = record registered { world = record (registered.world) { outside = o } }

  synced : System rt
  unfolding informed
  synced = record informed {
    world = goes_to s.next_waiter (returned s.generation none) informed.world;
  }

  promoted : System rt
  unfolding synced
  promoted = record synced {
    world = after_promote s.next_waiter (promote s.generation synced.world);
  }

  emptied : ℕ → System rt
  unfolding promoted
  emptied i = record promoted { world = finish i (clean_up promoted.world) }

-- From every state, reached in fewer than 2 ^ 64 steps, in which a waiter has reset the watch after
-- a failed sync and has not removed the informer yet, while the CRD is known and a reader is about
-- to call `Ensure`, five steps lead to a watcher that is active with no informer, if the source
-- starts, an informer comes up and `RemoveInformer` succeeds.
pub active_without_informer :
    {rt : Runtime} {n : ℕ} {s : System rt} (i j : ℕ) (e : rt.Error) (o : rt.Outside)
    → Reach n s
    → n < 2 ^ 64
    → s.waiters i ≡ cleaning e
    → s.readers j ≡ away
    → (s.started ≡ true) × (s.crd_exists ≡ true) × (s.watching ≡ false)
    → (rt.start_source s.outside).0 ≡ none
    → rt.has_informer o ≡ true
    → (rt.remove_informer o).0 ≡ none
    → (t : System rt) × Run s 5 t × (t.active ≡ true) × (rt.has_informer t.outside ≡ false)
unfolding emptied ensure promote clean_up finish
active_without_informer {rt} {s} i j e o r small cleans outside (started, known, idle) starts up
      gone =
    let c = Reach-IsConsistent r small in
    let inactive : s.active ≡ false = ground (arith, c.ready) in
    let other : s.next_waiter ≢ i = λ same. ground (arith, c.later i) in
    (
      emptied s j o i,
      next
          (next
            (next (next (next here (ensures j outside started)) (changes o (λ _. up)))
              (sync_returns s.next_waiter (ground arith) up))
            (promotes s.next_waiter (ground arith)))
          (cleans_up i {e = e} (ground arith)),
      ground arith,
      ground (arith, rt.removes o),
    )
