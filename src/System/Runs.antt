-- ===== src/System/Runs.antt =====
-- Runs that end within a number of steps in an active watcher with its informer.
use dynamic_crd_watch.Base.{ℕ, suc, ◌≤◌, ◌≡◌, Bool, true, false, ◌||◌, none, arith, refl}
use dynamic_crd_watch.Watcher.{Runtime, waiting, returned, promote}
use dynamic_crd_watch.System.{System, Step, crd_going, invalidates, sync_returns, promotes}
use dynamic_crd_watch.System.Staleness.{Run, here, next}

-- The steps that take the watch down: the CRD goes away, or a read finds no informer.
abbrev pub is_take_down : {rt : Runtime} {s t : System rt} → Step s t → Bool
is_take_down (crd_going crd src at gone) = true
is_take_down (invalidates j at) = true
is_take_down _ = false

abbrev pub has_take_down : {rt : Runtime} {s t : System rt} {k : ℕ} → Run s k t → Bool
has_take_down here = false
has_take_down (next run st) = is_take_down st || has_take_down run

Run-before :
    {rt : Runtime} {s t : System rt} (st : Step s t)
    → is_take_down st ≡ false
    → {k : ℕ} {u : System rt} → (run : Run t k u) → has_take_down run ≡ false
    → (run' : Run s (suc k) u) × (has_take_down run' ≡ false)
Run-before st up here stays = (next here st, ground arith)
Run-before st up (next run last) stays =
    let (run', stays') = Run-before st up run (ground arith) in (next run' last, ground arith)

-- A watcher that is active, with an informer in its cache.
abbrev pub IsUp : {rt : Runtime} → System rt → Type 0
IsUp {rt} s = (s.active ≡ true) × (rt.has_informer s.outside ≡ true)

-- Some run of at most `k` steps, none of which takes the watch down, ends there.
pub record CanRecover {rt : Runtime} (k : ℕ) (s : System rt) : Type 1 where
  pub steps : ℕ
  pub last : System rt
  pub run : Run s steps last
  pub stays : has_take_down run ≡ false
  pub within : steps ≤ k
  pub is_up : IsUp last

pub up_at_once : {rt : Runtime} {s : System rt} {k : ℕ} → IsUp s → CanRecover k s
up_at_once {s = s} up = record {
  steps = 0;
  last = s;
  run = here;
  stays = refl;
  within = omega arith;
  is_up = up;
}

pub CanRecover-step :
    {rt : Runtime} {s t : System rt} {k : ℕ} (st : Step s t)
    → is_take_down st ≡ false
    → CanRecover k t
    → CanRecover (suc k) s
CanRecover-step st up c =
    let (run, stays) = Run-before st up c.run c.stays in
    record {
      steps = suc c.steps;
      last = c.last;
      run = run;
      stays = stays;
      within = omega (arith, c.within);
      is_up = c.is_up;
    }

pub CanRecover-within :
    {rt : Runtime} {s : System rt} {k l : ℕ} → k ≤ l → CanRecover k s → CanRecover l s
CanRecover-within le c = record {
  steps = c.steps;
  last = c.last;
  run = c.run;
  stays = c.stays;
  within = omega (arith, c.within);
  is_up = c.is_up;
}

-- The sync waiter of the current generation, once its wait has returned.
pub returned-CanRecover :
    {rt : Runtime} {s : System rt} (i : ℕ)
    → s.waiters i ≡ returned s.generation none
    → rt.has_informer s.outside ≡ true
    → CanRecover 1 s
unfolding promote
returned-CanRecover i at synced = CanRecover-step (promotes i at) refl (up_at_once (ground arith))

-- The same before its wait returns.
pub waiting-CanRecover :
    {rt : Runtime} {s : System rt} (i : ℕ)
    → s.waiters i ≡ waiting s.generation
    → rt.has_informer s.outside ≡ true
    → CanRecover 2 s
waiting-CanRecover i at synced =
    CanRecover-step (sync_returns i at synced) refl (returned-CanRecover i (ground arith) synced)

-- A state of the cluster and the cache in which the source starts and the informer is there.
pub record CanSync (rt : Runtime) (up : rt.Outside) : Type 0 where
  pub source : (rt.start_source up).0 ≡ none
  pub informer : rt.has_informer up ≡ true
