-- ===== src/System/Invariant.antt =====
-- What the lock of pkg/dynamicwatch/watcher.go keeps true of a watcher and its sync waiters.
use dynamic_crd_watch.Base.{
  ℕ, suc, ◌+◌, ◌^◌, ◌≤◌, ◌<◌, ◌≡◌, ◌≢◌, ◌⊎◌, true, false, Option, none, some, arith, update,
  Option-cases, inl, inr,
}
use dynamic_crd_watch.Watcher.{
  Runtime, Waiter, unused, waiting, returned, World, register, handle_cache_invalidated,
}

-- The generation of a waiter that has not taken the lock yet.
abbrev pub gen_of : {Error : Type 0} → Waiter Error → Option ℕ
gen_of (waiting gen) = some gen
gen_of (returned gen _) = some gen
gen_of _ = none

-- `cancel_sync_waiter` names the one waiter of the current generation; it is set just while the
-- watch is registered and not ready; the waiters of earlier generations have been cancelled.
pub record IsConsistent {rt : Runtime} (n : ℕ) (w : World rt) : Type 0 where
  pub bounded : w.generation ≤ n
  pub gen_le : (i gen : ℕ) → gen_of (w.waiters i) ≡ some gen → gen ≤ w.generation
  pub current : (i : ℕ) → gen_of (w.waiters i) ≡ some w.generation → w.cancel_sync_waiter ≡ some i
  pub owner : (i : ℕ) → w.cancel_sync_waiter ≡ some i → gen_of (w.waiters i) ≡ some w.generation
  pub later : (i : ℕ) → w.next_waiter ≤ i → w.waiters i ≡ unused
  pub stale :
      (i gen : ℕ) → gen_of (w.waiters i) ≡ some gen → gen < w.generation → w.cancelled i ≡ true
  pub syncing : w.watching ≡ true → w.active ≡ false → w.cancel_sync_waiter ≢ none
  pub pending : (i : ℕ) → w.cancel_sync_waiter ≡ some i → (w.watching ≡ true) × (w.active ≡ false)
  pub ready : w.active ≡ true → w.watching ≡ true
  pub registered : w.watching ≡ true → (w.crd_exists ≡ true) × (w.started ≡ true)

-- `v` differs from `w` in nothing that the consistency rests on, or knows more of the CRD and of the
-- start than `w` does.
pub record Keeps {rt : Runtime} (w v : World rt) : Type 0 where
  pub generation : v.generation ≡ w.generation
  pub watching : v.watching ≡ w.watching
  pub active : v.active ≡ w.active
  pub cancel_sync_waiter : v.cancel_sync_waiter ≡ w.cancel_sync_waiter
  pub waiters : v.waiters ≡ w.waiters
  pub next_waiter : v.next_waiter ≡ w.next_waiter
  pub cancelled : v.cancelled ≡ w.cancelled
  pub crd_exists : w.crd_exists ≡ true → v.crd_exists ≡ true
  pub started : w.started ≡ true → v.started ≡ true

-- Waiter `i` goes on to `x`; no waiter's context is revived.
pub record Moves {rt : Runtime} (i : ℕ) (x : Waiter rt.Error) (w v : World rt) : Type 0 where
  pub generation : v.generation ≡ w.generation
  pub waiters : v.waiters ≡ update w.waiters i x
  pub next_waiter : v.next_waiter ≡ w.next_waiter
  pub cancelled : (j : ℕ) → w.cancelled j ≡ true → v.cancelled j ≡ true
  pub crd_exists : v.crd_exists ≡ w.crd_exists
  pub started : v.started ≡ w.started

module _ {rt : Runtime} {n : ℕ} {w : World rt} (c : IsConsistent n w) where
  open c use {bounded, gen_le, current, owner, later, stale, syncing, pending, ready, registered}

  pub kept-IsConsistent : {m : ℕ} {v : World rt} → n ≤ m → Keeps w v → IsConsistent m v
  kept-IsConsistent le k = record {
    bounded = ground arith;
    gen_le = λ i gen e. ground (arith, gen_le i gen);
    current = λ i e. ground (arith, current i);
    owner = λ i e. ground (arith, owner i);
    later = λ i le. ground (arith, later i);
    stale = λ i gen e lt. ground (arith, stale i gen);
    syncing = λ h l e. ground arith;
    pending = λ i e. ground (arith, pending i);
    ready = λ h. ground arith;
    registered = λ h. ground arith;
  }

  -- Taking the watch down keeps the state consistent, one generation on.
  pub invalidated-IsConsistent : suc n < 2 ^ 64 → IsConsistent (suc n) (handle_cache_invalidated w)
  unfolding handle_cache_invalidated
  invalidated-IsConsistent small = record {
    bounded = ground arith;
    gen_le = λ i gen e. ground (arith, gen_le i gen);
    current = λ i e. ground (arith, gen_le i w.generation, gen_le i (w.generation + 1));
    owner = λ i e. ground arith;
    later = λ i le. ground (arith, later i);
    stale = λ i gen e lt. ground (arith, stale i gen, gen_le i gen, current i);
    syncing = λ h. ground arith;
    pending = λ i e. ground arith;
    ready = λ h. ground arith;
    registered = λ h. ground arith;
  }

  no_waiter : w.watching ≡ false → w.cancel_sync_waiter ≡ none
  no_waiter idle = elim (Option-cases w.cancel_sync_waiter) [
    | inl e ↦ e
    | inr (i, e) ↦ ground (arith, pending i e)
  ]

  pub active_free : w.active ≡ true → w.cancel_sync_waiter ≡ none
  active_free active = elim (Option-cases w.cancel_sync_waiter) [
    | inl e ↦ e
    | inr (i, e) ↦ ground (arith, pending i e)
  ]

  pub register-IsConsistent :
      w.started ≡ true
      → w.active ≡ false
      → w.crd_exists ≡ true
      → w.watching ≡ false
      → IsConsistent (suc n) (register w)
  unfolding register
  register-IsConsistent st inactive exists idle = rw (no_waiter idle) (record {
    bounded = ground arith;
    gen_le = λ i gen e. ground (arith, gen_le i gen);
    current = λ i e. ground (arith, current i, no_waiter idle);
    owner = λ i e. ground (arith, owner i);
    later = λ i le. ground (arith, later i);
    stale = λ i gen e lt. ground (arith, stale i gen);
    syncing = λ h l e. ground arith;
    pending = λ i e. ground (arith, pending i);
    ready = λ h. ground arith;
    registered = λ h. ground arith;
  })

  -- A waiter that has not taken the lock, or that is past it, goes on without the lock.
  pub moved-IsConsistent :
      (i : ℕ) (x : Waiter rt.Error) {v : World rt}
      → w.waiters i ≢ unused
      → gen_of x ≡ gen_of (w.waiters i)
      → Moves i x w v
      → v.watcher ≡ w.watcher
      → IsConsistent (suc n) v
  moved-IsConsistent i x begun same m fields = record {
    bounded = ground arith;
    gen_le = λ j gen e. ground (arith, gen_le j gen);
    current = λ j e. ground (arith, current j);
    owner = λ j e. ground (arith, owner j);
    later = λ j le. ground (arith, later j, later i);
    stale = λ j gen e lt. ground (arith, stale j gen, m.cancelled j);
    syncing = λ h l e. ground arith;
    pending = λ j e. ground (arith, pending j);
    ready = λ h. ground arith;
    registered = λ h. ground arith;
  }

  -- A waiter that is not the current one ends, or goes on past the lock.
  pub ended-IsConsistent :
      (i : ℕ) (x : Waiter rt.Error) {v : World rt}
      → w.waiters i ≢ unused
      → gen_of x ≡ none
      → gen_of (w.waiters i) ≢ some w.generation
      → Moves i x w v
      → v.watcher ≡ w.watcher
      → IsConsistent (suc n) v
  ended-IsConsistent i x begun past stray m fields = record {
    bounded = ground arith;
    gen_le = λ j gen e. ground (arith, gen_le j gen);
    current = λ j e. ground (arith, current j);
    owner = λ j e. ground (arith, owner j);
    later = λ j le. ground (arith, later j, later i);
    stale = λ j gen e lt. ground (arith, stale j gen, m.cancelled j);
    syncing = λ h l e. ground arith;
    pending = λ j e. ground (arith, pending j);
    ready = λ h. ground arith;
    registered = λ h. ground arith;
  }

  -- The current waiter settles the watch: it is ready, or it is no longer registered.
  pub settled-IsConsistent :
      (i : ℕ) (x : Waiter rt.Error) {v : World rt}
      → gen_of (w.waiters i) ≡ some w.generation
      → gen_of x ≡ none
      → Moves i x w v
      → v.cancel_sync_waiter ≡ none
      → ((v.watching ≡ w.watching) × (v.active ≡ true))
        ⊎ ((v.watching ≡ false) × (v.active ≡ w.active))
      → IsConsistent (suc n) v
  settled-IsConsistent i x mine past m free outcome = record {
    bounded = ground arith;
    gen_le = λ j gen e. ground (arith, gen_le j gen);
    current = λ j e. ground (arith, current j, current i);
    owner = λ j e. ground arith;
    later = λ j le. ground (arith, later j, later i);
    stale = λ j gen e lt. ground (arith, stale j gen, m.cancelled j);
    syncing = λ h l e. ground (arith, current i, pending i);
    pending = λ j e. ground arith;
    ready = λ h. ground (arith, current i, pending i);
    registered = λ h. ground (arith, current i, pending i);
  }
