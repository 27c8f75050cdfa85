-- ===== src/System/Safety.antt =====
-- What holds of a watcher of pkg/dynamicwatch/watcher.go in every state that its goroutines reach.
-- A generation is a uint64, so the runs are those of fewer than 2 ^ 64 steps.
use dynamic_crd_watch.Base.{if◌then◌else◌}
use dynamic_crd_watch.Base.{
  ℕ, ◌^◌, ◌<◌, ◌≡◌, refl, ◌≢◌, ◌↔◌, ◌⊎◌, inl, inr, true, false, none, some, arith, Option-cases,
  Bool-cases,
}
use dynamic_crd_watch.Watcher.{Runtime, ready, status, available, promote, fail_sync}
use dynamic_crd_watch.Condition.{condition, condition_true, condition_false}
use dynamic_crd_watch.System.{System, Reach, fresh, after}
use dynamic_crd_watch.System.Invariant.{gen_of, IsConsistent, active_free}
use dynamic_crd_watch.System.Steps.{Step-IsConsistent}
use dynamic_crd_watch.System.Gauge.{is_tearing, IsShown, Step-IsShown}

pub Reach-IsConsistent :
    {rt : Runtime} {n : ℕ} {s : System rt} → Reach n s → n < 2 ^ 64 → IsConsistent n s.world
Reach-IsConsistent (fresh a b r o) small = record {
  bounded = omega arith;
  gen_le = λ i gen e. ground arith;
  current = λ i e. ground arith;
  owner = λ i e. ground arith;
  later = λ i le. refl;
  stale = λ i gen e lt. ground arith;
  syncing = λ h. ground arith;
  pending = λ i e. ground arith;
  ready = λ h. ground arith;
  registered = λ h. ground arith;
}
Reach-IsConsistent (after r st) small =
    Step-IsConsistent st small (Reach-IsConsistent r (omega arith))

pub Reach-IsShown : {rt : Runtime} {n : ℕ} {s : System rt} → Reach n s → n < 2 ^ 64 → IsShown s
Reach-IsShown (fresh a b r o) small = ground arith
Reach-IsShown (after r st) small =
    Step-IsShown st (Reach-IsConsistent r (omega arith)) (Reach-IsShown r (omega arith))

module _ {rt : Runtime} {n : ℕ} {s : System rt} (r : Reach n s) (small : n < 2 ^ 64) where
  -- In every state that is reached in fewer than 2 ^ 64 steps, a watcher that is active was started,
  -- knows its CRD, has its watch registered, and no sync waiter can still change that: none of the
  -- current generation is before the lock, and no cancel function is stored.
  pub active_settled :
      (i : ℕ)
      → s.active ≡ true
      → (s.started ≡ true)
        × (s.crd_exists ≡ true)
        × (s.watching ≡ true)
        × (s.cancel_sync_waiter ≡ none)
        × (gen_of (s.waiters i) ≡ some s.generation → ⊥)
  active_settled i active =
      let c = Reach-IsConsistent r small in
      ground (arith, c.ready, c.registered, c.current i, active_free c)

  -- In every state that is reached in fewer than 2 ^ 64 steps, a watch that is registered and not active
  -- has exactly one sync waiter that can make it active.
  pub syncing_has_waiter :
      s.watching ≡ true
      → s.active ≡ false
      → (i : ℕ) × (gen_of (s.waiters i) ≡ some s.generation)
        × (s.cancel_sync_waiter ≡ some i)
        × ((j : ℕ) → gen_of (s.waiters j) ≡ some s.generation → j ≡ i)
  syncing_has_waiter watching inactive =
      let c = Reach-IsConsistent r small in
      elim (Option-cases s.cancel_sync_waiter) [
        | inl free ↦ absurd (c.syncing watching inactive free)
        | inr (i, e) ↦ (i, c.owner i e, e, λ j at. ground (arith, c.current j at))
      ]

  -- In every state that is reached in fewer than 2 ^ 64 steps, the watch is in one of three: it is not
  -- registered, and not active; or it is registered for a watcher that was started and knows its
  -- CRD, and either is active, with no cancel function stored and no sync waiter of the current
  -- generation before the lock, or is not, and then exactly one sync waiter can make it active,
  -- whose cancel function is the one stored.
  pub watch_state :
      ((s.watching ≡ false) × (s.active ≡ false))
      ⊎ ((s.watching ≡ true)
          × (s.started ≡ true)
          × (s.crd_exists ≡ true)
          × (((s.active ≡ true)
                × (s.cancel_sync_waiter ≡ none)
                × ((i : ℕ) → gen_of (s.waiters i) ≢ some s.generation))
              ⊎ ((s.active ≡ false)
                  × (i : ℕ) × (gen_of (s.waiters i) ≡ some s.generation)
                  × (s.cancel_sync_waiter ≡ some i)
                  × ((j : ℕ) → gen_of (s.waiters j) ≡ some s.generation → j ≡ i))))
  watch_state =
      let c = Reach-IsConsistent r small in
      elim (Bool-cases s.watching) [
        | inr idle ↦ inl (idle, ground (arith, c.ready))
        | inl watching ↦
            let (known, started) = c.registered watching in
            inr (
              watching,
              started,
              known,
              (elim (Bool-cases s.active) [
                | inr inactive ↦
                    let (i, mine, stored, only) = syncing_has_waiter watching inactive in
                    inr (inactive, i, mine, stored, only)
                | inl active ↦
                    let (_, _, _, free, _) = active_settled 0 active in
                    inl (
                      active,
                      free,
                      λ i. let (_, _, _, _, none_left) = active_settled i active in none_left,
                    )
              ]),
            )
      ]

  -- In every state that is reached in fewer than 2 ^ 64 steps, a waiter that has not taken the lock
  -- and is of another generation than the watcher has had its context cancelled, and changes
  -- nothing of the watcher under the lock, whether its sync succeeded or failed.
  pub stale_waiter_cancelled :
      (i gen : ℕ)
      → gen_of (s.waiters i) ≡ some gen
      → gen ≢ s.generation
      → (s.cancelled i ≡ true)
        × (promote gen s.world ≡ (false, s.world))
        × (fail_sync gen s.world ≡ (true, s.world))
  unfolding promote fail_sync
  stale_waiter_cancelled i gen at differs =
      let c = Reach-IsConsistent r small in ground (arith, c.gen_le i gen, c.stale i gen)

  pub gauge_active : is_tearing s.crd_handler ≡ false → s.gauge ≡ s.active
  gauge_active still = let c = Reach-IsShown r small in ground arith

  pub status_available : (status s.watcher).available ≡ available s.watcher
  unfolding status available
  status_available = let c = Reach-IsConsistent r small in ground arith

  pub condition_available :
      (condition s.watcher).status
      ≡ (if available s.watcher then condition_true else condition_false)
  unfolding condition
  condition_available = ground (arith, status_available)

  pub ready_available : ((status s.watcher).reason ≡ ready) ↔ (available s.watcher ≡ true)
  unfolding status available
  ready_available = let c = Reach-IsConsistent r small in ground arith

  -- In every state that is reached in fewer than 2 ^ 64 steps, while the CRD handler is not in the
  -- middle of a tear-down, all that reports on the watcher agrees: `Available`, `Status`, whose
  -- reason is Ready exactly then, `Condition`, and the gauge (of a CRD that no other watcher of the
  -- process follows).
  pub status_shown :
      is_tearing s.crd_handler ≡ false
      → ((status s.watcher).available ≡ available s.watcher)
        × (((status s.watcher).reason ≡ ready) ↔ (available s.watcher ≡ true))
        × ((condition s.watcher).status
            ≡ (if available s.watcher then condition_true else condition_false))
        × (s.gauge ≡ available s.watcher)
  unfolding available
  status_shown still = (status_available, ready_available, condition_available, gauge_active still)
