-- ===== src/System/Rest.antt =====
-- Left alone, the goroutines around a watcher of pkg/dynamicwatch/watcher.go come to rest.
use dynamic_crd_watch.Base.{
  ℕ, zero, suc, ◌+◌, ◌*◌, ◌^◌, ◌≤◌, ◌<◌, ◌≡◌, refl, inl, inr, Bool, false, ◌||◌, arith,
}
use dynamic_crd_watch.Watcher.{Runtime}
use dynamic_crd_watch.System.{System, Step, Reach, after}
use dynamic_crd_watch.System.Safety.{Reach-IsConsistent}
use dynamic_crd_watch.System.Staleness.{Run, here, next, Run-extends}
use dynamic_crd_watch.System.Work.{is_input, work, work_bound, Step-work}
use dynamic_crd_watch.System.Quiescence.{AreFew, Step-AreFew, IsSettled, IsSettled-or_works}

abbrev pub has_input : {rt : Runtime} {s : System rt} {k : ℕ} {t : System rt} → Run s k t → Bool
has_input here = false
has_input (next run st) = is_input st || has_input run

module _ {rt : Runtime} {n : ℕ} {s : System rt} (m : ℕ) (r : Reach n s) (few : AreFew m s)
    (small : n + work m s < 2 ^ 64) where
  -- What a run without inputs does is taken off the work that was there.
  Run-work :
      {k : ℕ} {t : System rt} (run : Run s k t)
      → has_input run ≡ false
      → (k + work m t ≤ work m s) × AreFew m t
  Run-work here internal = (omega arith, few)
  Run-work (next {k} {t} {u} run st) internal =
      let (le, few') = Run-work run (ground arith) in
      let (r', _) = Run-extends r run (omega arith) in
      let less = Step-work m t (Reach-IsConsistent r' (omega arith)) few' st (ground arith) in
      (omega arith, Step-AreFew st m (ground arith) few')

-- A way from `s` to rest.
abbrev pub CanRest : {rt : Runtime} → ℕ → System rt → Type 1
CanRest {rt} m s =
    (k : ℕ) × (t : System rt) × (run : Run s k t) × (has_input run ≡ false) × IsSettled m t

step_first :
    {rt : Runtime} {s t : System rt} (st : Step s t)
    → is_input st ≡ false
    → {k : ℕ} {u : System rt} → (run : Run t k u) → has_input run ≡ false
    → (run' : Run s (suc k) u) × (has_input run' ≡ false)
step_first st internal here inner = (next here st, ground arith)
step_first st internal (next run st') inner =
    let (run', inner') = step_first st internal run (ground arith) in (next run' st', ground arith)

work-CanRest :
    {rt : Runtime} {n : ℕ} {s : System rt} (m : ℕ)
    → rt.Error
    → Reach n s
    → AreFew m s
    → (fuel : ℕ) → work m s ≤ fuel
    → n + fuel < 2 ^ 64
    → CanRest m s
work-CanRest {s = s} m timeout r few zero enough small =
    elim (IsSettled-or_works m r (omega arith) timeout) [
      | inl settled ↦ (0, s, here, refl, settled)
      | inr (t, st, internal) ↦
          absurd (omega (arith, Step-work m s (Reach-IsConsistent r (omega arith)) few st internal))
    ]
work-CanRest {s = s} m timeout r few (suc fuel) enough small =
    elim (IsSettled-or_works m r (omega arith) timeout) [
      | inl settled ↦ (0, s, here, refl, settled)
      | inr (t, st, internal) ↦
          let less = Step-work m s (Reach-IsConsistent r (omega arith)) few st internal in
          let (k, u, run, inner, settled) =
            work-CanRest m timeout (after r st) (Step-AreFew st m internal few) fuel (omega arith)
              (omega arith) in
          let (run', inner') = step_first st internal run inner in (suc k, u, run', inner', settled)
    ]

-- Left alone, a watcher comes to rest. From any state that is reached (in fewer than 2 ^ 64 steps,
-- those below included) and whose readers are those below `m`, with no input (no `Start`, event on
-- the CRD, call of `Ensure` or change of the cluster), the goroutines take at most three steps for
-- each sync waiter, two for each reader and two for the CRD handler; and whatever they have done so
-- far, they can go on, with no input, until nothing is under way (a wait for a sync can always time
-- out): the handler listens, every waiter has ended with its context cancelled, no reader is in a
-- read, the watch is registered exactly if it is ready, and the gauge shows it.
pub comes_to_rest :
    {rt : Runtime} {n k : ℕ} {s t : System rt} (m : ℕ) (timeout : rt.Error)
    → Reach n s
    → AreFew m s
    → n + (3 * s.next_waiter + 2 * m + 2) < 2 ^ 64
    → (run : Run s k t) → has_input run ≡ false
    → (k ≤ 3 * s.next_waiter + 2 * m + 2) × CanRest m t
comes_to_rest {n = n} {s = s} {t = t} m timeout r few small run internal =
    let bound = work_bound m s in
    let (le, few') = Run-work m r few (omega arith) run internal in
    let (r', _) = Run-extends r run (omega arith) in
    (omega arith, work-CanRest m timeout r' few' (work m t) (omega arith) (omega arith))
