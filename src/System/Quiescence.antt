-- ===== src/System/Quiescence.antt =====
-- When the goroutines around a watcher of pkg/dynamicwatch/watcher.go are at rest:
-- `IsSettled-or_works` finds a step that one of them can take wherever they are not.
use dynamic_crd_watch.Base.{
  ℕ, ◌^◌, ◌≤◌, ◌<◌, ◌≡◌, ◌≢◌, ◌⊎◌, inl, inr, refl, ap, sym, ◌∙◌, true, false, none, some, arith,
  dec_lt, Bool-cases,
}
use dynamic_crd_watch.Base.Sums.{total-cases}
use dynamic_crd_watch.Watcher.{
  Runtime, Waiter, unused, waiting, returned, cleaning, announcing, done, start, ensure,
  mark_present, mark_removed, tear_down, requeue, handle_cache_invalidated, promote, fail_sync,
  clean_up, announce, finish,
}
use dynamic_crd_watch.System.{
  System, listening, Reader, away, Step, starts, tears_down, requeues, reads, misses, invalidates,
  sync_fails, promotes, gives_up, cleans_up, announces, Reach, fresh, after,
}
use dynamic_crd_watch.System.Invariant.{gen_of}
use dynamic_crd_watch.System.Cases.{Handler-cases, Reader-cases}
use dynamic_crd_watch.System.Gauge.{is_tearing}
use dynamic_crd_watch.System.Safety.{Reach-IsConsistent, syncing_has_waiter, gauge_active}
use dynamic_crd_watch.System.Work.{is_input, waiter_work, reader_work}

-- A waiter that ended has its context cancelled, and every waiter that was counted has begun.
record AreEnded {rt : Runtime} (s : System rt) : Type 0 where
  ended : (i : ℕ) → s.waiters i ≡ done → s.cancelled i ≡ true
  begun : (i : ℕ) → i < s.next_waiter → s.waiters i ≢ unused

Step-AreEnded : {rt : Runtime} {s t : System rt} → Step s t → AreEnded s → AreEnded t
unfolding start mark_present mark_removed tear_down requeue ensure handle_cache_invalidated promote
    fail_sync clean_up announce finish
Step-AreEnded (starts e) h = record {
  ended = λ i e. ground (arith, h.ended i);
  begun = λ i lt. ground (arith, h.begun i);
}
Step-AreEnded _ h = record {
  ended = λ i e. ground (arith, h.ended i);
  begun = λ i lt. ground (arith, h.begun i);
}

Reach-AreEnded : {rt : Runtime} {n : ℕ} {s : System rt} → Reach n s → AreEnded s
Reach-AreEnded (fresh a b r o) = record {
  ended = λ i e. ground arith;
  begun = λ i lt. absurd (omega arith);
}
Reach-AreEnded (after r st) = Step-AreEnded st (Reach-AreEnded r)

-- The readers are those below `m`.
abbrev pub AreFew : {rt : Runtime} → ℕ → System rt → Type 0
AreFew m s = (j : ℕ) → m ≤ j → s.readers j ≡ away

pub Step-AreFew :
    {rt : Runtime} {s t : System rt} (st : Step s t) (m : ℕ)
    → is_input st ≡ false
    → AreFew m s
    → AreFew m t
Step-AreFew (reads k at there) m internal few j le = ground (arith, few j)
Step-AreFew (misses k at gone) m internal few j le = ground (arith, few j, few k)
Step-AreFew (invalidates k at) m internal few j le = ground (arith, few j)
Step-AreFew _ m internal few j le = ground (arith, few j)

-- Nothing is under way: the CRD handler listens, every waiter has ended with its context cancelled, and
-- no reader is in a read; the watch is registered exactly if it is ready, and the gauge shows it.
pub record IsSettled {rt : Runtime} (m : ℕ) (s : System rt) : Type 0 where
  pub listens : s.crd_handler ≡ listening
  pub ended : (i : ℕ) → i < s.next_waiter → (s.waiters i ≡ done) × (s.cancelled i ≡ true)
  pub unread : (j : ℕ) → j < m → s.readers j ≡ away
  pub registered : s.watching ≡ s.active
  pub shown : s.gauge ≡ s.active

-- Every sync waiter that was started has ended.
abbrev pub AreDone : {rt : Runtime} → System rt → Type 0
AreDone s = (i : ℕ) → i < s.next_waiter → s.waiters i ≡ done

-- Some step can be taken that is not an input.
abbrev pub CanWork : {rt : Runtime} → System rt → Type 1
CanWork {rt} s = (t : System rt) × (st : Step s t) × (is_input st ≡ false)

-- A handler, a waiter or a reader with work left can take a step; `timeout` is the error of a
-- sync that took too long.
module _ {rt : Runtime} (timeout : rt.Error) (s : System rt) where
  handler_works : (s.crd_handler ≡ listening) ⊎ CanWork s
  handler_works = elim (Handler-cases s.crd_handler) [
    | inl (inl idle) ↦ inl idle
    | inl (inr at) ↦ inr (_, requeues at, refl)
    | inr (a, b, at) ↦ inr (_, tears_down at, refl)
  ]

  waiter_works : (i : ℕ) (x : Waiter rt.Error) → s.waiters i ≡ x → waiter_work x ≢ 0 → CanWork s
  waiter_works i unused at busy = absurd (busy refl)
  waiter_works i (waiting gen) at busy = (_, sync_fails i timeout at, refl)
  waiter_works i (returned gen none) at busy = (_, promotes i at, refl)
  waiter_works i (returned gen (some e)) at busy = (_, gives_up i at, refl)
  waiter_works i (cleaning e) at busy = (_, cleans_up i at, refl)
  waiter_works i announcing at busy = (_, announces i at, refl)
  waiter_works i done at busy = absurd (busy refl)

  reader_works : (j : ℕ) → reader_work (s.readers j) ≢ 0 → CanWork s
  reader_works j busy = elim (Reader-cases (s.readers j)) [
    | inl at ↦ absurd (ground arith)
    | inr (inr at) ↦ (_, invalidates j at, refl)
    | inr (inl at) ↦ elim (Bool-cases (rt.has_informer s.outside)) [
      | inl there ↦ (_, reads j at there, refl)
      | inr gone ↦ (_, misses j at gone, refl)
    ]
  ]

ended_by_work : {Error : Type 0} (x : Waiter Error) → waiter_work x ≡ 0 → x ≢ unused → x ≡ done
ended_by_work unused light born = absurd (born refl)
ended_by_work done light born = refl
ended_by_work (waiting gen) light born = absurd (ground arith)
ended_by_work (returned gen e) light born = absurd (ground arith)
ended_by_work _ light born = absurd (ground arith)

work_read : (x : Reader) → reader_work x ≡ 0 → x ≡ away
work_read away light = refl
work_read _ light = absurd (ground arith)

busy_waiter :
    {Error : Type 0} {gen : ℕ} (x : Waiter Error) → gen_of x ≡ some gen → waiter_work x ≢ 0
busy_waiter unused at light = absurd (ground arith)
busy_waiter (waiting gen) at light = absurd (ground arith)
busy_waiter (returned gen e) at light = absurd (ground arith)
busy_waiter _ at light = absurd (ground arith)

module _ {rt : Runtime} {n : ℕ} {s : System rt} (r : Reach n s) (small : n < 2 ^ 64) where
  light-registered :
      ((i : ℕ) → i < s.next_waiter → waiter_work (s.waiters i) ≡ 0) → s.watching ≡ s.active
  light-registered waiters =
      let c = Reach-IsConsistent r small in
      elim (Bool-cases s.active) [
        | inl active ↦ c.ready active ∙ sym active
        | inr inactive ↦ elim (Bool-cases s.watching) [
          | inr idle ↦ idle ∙ sym inactive
          | inl watching ↦
              let (i, at, _, _) = syncing_has_waiter r small watching inactive in
              elim (dec_lt i s.next_waiter) [
                | yes lt ↦ absurd (busy_waiter (s.waiters i) at (waiters i lt))
                | no over ↦ absurd (ground (arith, c.later i))
              ]
        ]
      ]

  pub AreDone-registered : AreDone s → s.watching ≡ s.active
  AreDone-registered ended = light-registered (λ i lt. ap waiter_work (ended i lt))

module _ {rt : Runtime} {n : ℕ} {s : System rt} (m : ℕ) (r : Reach n s) (small : n < 2 ^ 64) where
  -- With nothing left to do, a watcher that was reached is settled.
  light-IsSettled :
      s.crd_handler ≡ listening
      → ((i : ℕ) → i < s.next_waiter → waiter_work (s.waiters i) ≡ 0)
      → ((j : ℕ) → j < m → reader_work (s.readers j) ≡ 0)
      → IsSettled m s
  light-IsSettled idle waiters readers =
      let e = Reach-AreEnded r in
      let ended : (i : ℕ) → i < s.next_waiter → s.waiters i ≡ done =
        λ i lt. ended_by_work (s.waiters i) (waiters i lt) (e.begun i lt) in
      record {
        listens = idle;
        ended = λ i lt. (ended i lt, e.ended i (ended i lt));
        unread = λ j lt. work_read (s.readers j) (readers j lt);
        registered = light-registered r small waiters;
        shown = gauge_active r small (ap is_tearing idle);
      }

  pub IsSettled-or_works : rt.Error → IsSettled m s ⊎ CanWork s
  IsSettled-or_works timeout = elim (handler_works timeout s) [
    | inr more ↦ inr more
    | inl idle ↦ elim (total-cases waiter_work s.waiters s.next_waiter) [
      | inr (i, lt, heavy) ↦ inr (waiter_works timeout s i (s.waiters i) refl heavy)
      | inl waiters ↦ elim (total-cases reader_work s.readers m) [
        | inr (j, lt, heavy) ↦ inr (reader_works timeout s j heavy)
        | inl readers ↦ inl (light-IsSettled idle waiters readers)
      ]
    ]
  ]
