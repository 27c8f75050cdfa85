-- ===== src/System/Converging.antt =====
-- However the goroutines around a watcher of pkg/dynamicwatch/watcher.go are interleaved, it becomes
-- ready where its CRD stays and no sync fails.
use dynamic_crd_watch.Base.{
  ℕ, ◌+◌, ◌^◌, ◌<◌, ◌≡◌, inl, inr, sym, ◌∙◌, Bool, true, false, not, ◌&&◌, ◌||◌, arith, Bool-cases,
  none, some,
}
use dynamic_crd_watch.Watcher.{
  Runtime, Waiter, returned, start, ensure, mark_present, mark_removed, tear_down, requeue,
  handle_cache_invalidated, promote, fail_sync, clean_up, announce, finish,
}
use dynamic_crd_watch.System.{
  System, Step, starts, crd_going, ensures, invalidates, sync_fails, promotes, gives_up, Reach,
}
use dynamic_crd_watch.System.Invariant.{IsConsistent}
use dynamic_crd_watch.System.Safety.{Reach-IsConsistent, gauge_active}
use dynamic_crd_watch.System.Staleness.{Run, here, next, Run-extends}
use dynamic_crd_watch.System.Gauge.{is_tearing}
use dynamic_crd_watch.System.Quiescence.{AreDone, AreDone-registered}

-- The steps that work against the watch: the CRD goes away, a read finds no informer, or a sync fails.
abbrev pub is_adverse : {rt : Runtime} {s t : System rt} → Step s t → Bool
is_adverse (crd_going crd src at gone) = true
is_adverse (invalidates j at) = true
is_adverse (sync_fails i e at) = true
is_adverse _ = false

abbrev pub is_ensure : {rt : Runtime} {s t : System rt} → Step s t → Bool
is_ensure (ensures j at st) = true
is_ensure _ = false

module _ {rt : Runtime} {s : System rt} where
  abbrev pub is_favourable : {k : ℕ} {t : System rt} → Run s k t → Bool
  is_favourable here = true
  is_favourable (next run st) = not (is_adverse st) && is_favourable run

  -- Some reconcile has called `Ensure`.
  abbrev pub has_ensured : {k : ℕ} {t : System rt} → Run s k t → Bool
  has_ensured here = false
  has_ensured (next run st) = is_ensure st || has_ensured run

abbrev has_failed : {Error : Type 0} → Waiter Error → Bool
has_failed (returned gen (some e)) = true
has_failed _ = false

-- The watcher knows its CRD, was started, and no waiter is about to give up.
pub record IsPromising {rt : Runtime} (s : System rt) : Type 0 where
  pub started : s.started ≡ true
  pub known : s.crd_exists ≡ true
  pub hopeful : (i : ℕ) → has_failed (s.waiters i) ≡ false

Step-IsPromising :
    {rt : Runtime} {s t : System rt} (st : Step s t)
    → is_adverse st ≡ false
    → IsPromising s
    → IsPromising t
unfolding start mark_present mark_removed tear_down requeue ensure handle_cache_invalidated promote
    fail_sync clean_up announce finish
Step-IsPromising (starts e) kind p = record {
  started = ground arith;
  known = ground arith;
  hopeful = λ i. ground (arith, p.hopeful i);
}
Step-IsPromising (gives_up i {gen} {e} at) kind p = record {
  started = ground arith;
  known = ground arith;
  hopeful = λ j. ground (arith, p.hopeful j);
}
Step-IsPromising (promotes i {gen} at) kind p = record {
  started = ground arith;
  known = ground arith;
  hopeful = λ j. ground (arith, p.hopeful j);
}
Step-IsPromising _ kind p = record {
  started = ground arith;
  known = ground arith;
  hopeful = λ i. ground (arith, p.hopeful i);
}

-- A registered watch stays registered.
kept_registered :
    {rt : Runtime} {s t : System rt} (st : Step s t)
    → is_adverse st ≡ false
    → IsPromising s
    → s.watching ≡ true
    → t.watching ≡ true
unfolding start mark_present mark_removed tear_down requeue ensure handle_cache_invalidated promote
    fail_sync clean_up announce finish
kept_registered (starts e) kind p watching = ground arith
kept_registered (gives_up i {gen} {e} at) kind p watching = absurd (ground (arith, p.hopeful i))
kept_registered _ kind p watching = ground arith

ensure_registers :
    {rt : Runtime} {s t : System rt}
    → ((o : rt.Outside) → (rt.start_source o).0 ≡ none)
    → {n : ℕ} → IsConsistent n s.world
    → (st : Step s t) → is_ensure st ≡ true
    → IsPromising s
    → t.watching ≡ true
unfolding ensure
ensure_registers {s = s} source c (ensures j at st) e p = ground (arith, source s.outside, c.ready)
ensure_registers source c _ e p = absurd (ground arith)

no_truth : false ≡ true → ⊥
no_truth e = ground arith

split_and : (a b : Bool) → not a && b ≡ true → (a ≡ false) × (b ≡ true)
split_and a b h = ground arith

second_or : (a b : Bool) → a || b ≡ true → a ≡ false → b ≡ true
second_or a b h e = ground arith

-- Along a run without adverse steps the watcher stays promising, and once a reconcile has called `Ensure`
-- its watch is registered.
Run-registered :
    {rt : Runtime} {n : ℕ} {s : System rt} {k : ℕ} {t : System rt}
    → ((o : rt.Outside) → (rt.start_source o).0 ≡ none)
    → Reach n s
    → (run : Run s k t) → n + k < 2 ^ 64
    → is_favourable run ≡ true
    → IsPromising s
    → IsPromising t × (has_ensured run ≡ true → t.watching ≡ true)
Run-registered source r here small kind p = (p, λ e. absurd (no_truth e))
Run-registered {n = n} source r (next {k} {t} run st) small kind p =
    let (fair, kind') = split_and (is_adverse st) (is_favourable run) kind in
    let (r', _) = Run-extends r run (omega arith) in
    let c = Reach-IsConsistent r' (omega arith) in
    let (p', registered) = Run-registered source r run (omega arith) kind' p in
    (
      Step-IsPromising st fair p',
      λ e. elim (Bool-cases (is_ensure st)) [
        | inl ensured ↦ ensure_registers source c st ensured p'
        | inr other ↦
            kept_registered st fair p'
              (registered (second_or (is_ensure st) (has_ensured run) e other))
      ],
    )

-- Where the CRD stays and no sync fails, every way leads up. Take a state that is reached, of a watcher
-- that was started and knows its CRD, whose source always starts and none of whose waiters is about
-- to give up, and any run (of fewer than 2 ^ 64 steps in all) in which the CRD does not go away, no
-- read that found the informer missing invalidates the watch, and no sync fails: whatever the order
-- of its steps and however many reconciles it has, if one of them has called `Ensure`, and once every
-- sync waiter has ended and the CRD handler is not in the middle of a tear-down, the watcher is
-- ready, and the gauge shows it.
pub favourable_ready :
    {rt : Runtime} {n k : ℕ} {s t : System rt}
    → ((o : rt.Outside) → (rt.start_source o).0 ≡ none)
    → Reach n s
    → IsPromising s
    → (run : Run s k t) → n + k < 2 ^ 64
    → is_favourable run ≡ true
    → has_ensured run ≡ true
    → AreDone t
    → is_tearing t.crd_handler ≡ false
    → (t.active ≡ true) × (t.gauge ≡ true)
favourable_ready source r p run small kind called ended still =
    let (_, registered) = Run-registered source r run small kind p in
    let (r', _) = Run-extends r run small in
    let active = sym (AreDone-registered r' (omega arith) ended) ∙ registered called in
    (active, gauge_active r' (omega arith) still ∙ active)
