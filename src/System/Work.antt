-- ===== src/System/Work.antt =====
-- The work that the goroutines around a watcher of pkg/dynamicwatch/watcher.go have left, where
-- nothing new comes in.
use dynamic_crd_watch.Base.{
  ℕ, ◌+◌, ◌*◌, ◌≤◌, ◌<◌, ◌≡◌, ◌≢◌, refl, ap, Bool, true, false, arith, inl, inr, none, some, update,
  ◌==◌, dec_lt, Bool-cases,
}
use dynamic_crd_watch.Base.Sums.{total, total-update, total_bound}
use dynamic_crd_watch.Watcher.{
  Runtime, Waiter, World, waiting, returned, cleaning, announcing, done, ensure, tear_down, requeue,
  handle_cache_invalidated, promote, fail_sync, clean_up, announce, finish,
}
use dynamic_crd_watch.System.{
  System, after_promote, after_fail_sync, goes_to, CrdHandler, listening, tearing, requeueing,
  Reader, away, ensured, missed, Step, starts, crd_present, crd_going, tears_down, requeues,
  ensures, reads, misses, invalidates, sync_returns, sync_fails, promotes, gives_up, cleans_up,
  announces, changes,
}
use dynamic_crd_watch.System.Invariant.{IsConsistent}

-- The steps that come from outside: `Start`, a CRD event, a reconcile that calls `Ensure`, and a change
-- of the cluster.
abbrev pub is_input : {rt : Runtime} {s t : System rt} → Step s t → Bool
is_input (starts e) = true
is_input (crd_present crd src at usable) = true
is_input (crd_going crd src at gone) = true
is_input (ensures j at st) = true
is_input (changes o keeps) = true
is_input _ = false

-- The most steps that each can still take.
abbrev pub handler_work : CrdHandler → ℕ
handler_work listening = 0
handler_work requeueing = 1
handler_work (tearing _ _) = 2

abbrev pub waiter_work : {Error : Type 0} → Waiter Error → ℕ
waiter_work (waiting _) = 3
waiter_work (returned _ _) = 2
waiter_work (cleaning _) = 1
waiter_work announcing = 1
waiter_work _ = 0

abbrev pub reader_work : Reader → ℕ
reader_work away = 0
reader_work ensured = 2
reader_work missed = 1

-- That of all goroutines, with the readers below `m`.
abbrev pub work : {rt : Runtime} → ℕ → System rt → ℕ
work m s =
    handler_work s.crd_handler
    + total waiter_work s.waiters s.next_waiter
    + total reader_work s.readers m

waiter_bound : {Error : Type 0} (x : Waiter Error) → waiter_work x ≤ 3
waiter_bound (waiting g) = omega arith
waiter_bound _ = omega arith

reader_bound : (x : Reader) → reader_work x ≤ 2
reader_bound away = omega arith
reader_bound _ = omega arith

handler_bound : (h : CrdHandler) → handler_work h ≤ 2
handler_bound listening = omega arith
handler_bound _ = omega arith

pub work_bound : {rt : Runtime} (m : ℕ) (s : System rt) → work m s ≤ 3 * s.next_waiter + 2 * m + 2
work_bound m s =
    let ws = total_bound waiter_work s.waiters 3 waiter_bound s.next_waiter in
    let rs = total_bound reader_work s.readers 2 reader_bound m in
    let h = handler_bound s.crd_handler in omega arith

module _ {rt : Runtime} {n : ℕ} (m : ℕ) (s : System rt) (c : IsConsistent n s.world)
    (few : (j : ℕ) → m ≤ j → s.readers j ≡ away) where
  begun : (i : ℕ) → waiter_work (s.waiters i) ≢ 0 → i < s.next_waiter
  begun i busy = elim (dec_lt i s.next_waiter) [
    | yes lt ↦ lt
    | no over ↦ absurd (busy (ap waiter_work (c.later i (omega arith))))
  ]

  -- A waiter that goes on has less left.
  waiter_works :
      (i : ℕ) (x : Waiter rt.Error) (v : World rt)
      → v.waiters ≡ update s.waiters i x
      → v.next_waiter ≡ s.next_waiter
      → waiter_work x < waiter_work (s.waiters i)
      → work m (record s { world = v }) < work m s
  waiter_works i x v ws nw less =
      let moved =
        total-update waiter_work s.waiters i x s.next_waiter (begun i (λ e. omega arith)) in
      rw (ws, nw) (omega arith)

  reader_works :
      (j : ℕ) (x : Reader)
      → reader_work x < reader_work (s.readers j)
      → total reader_work (update s.readers j x) m < total reader_work s.readers m
  reader_works j x less = elim (dec_lt j m) [
    | yes lt ↦ let moved = total-update reader_work s.readers j x m lt in omega arith
    | no over ↦ absurd (ground (arith, few j))
  ]

  -- Every step that does not come from outside is work done.
  pub Step-work : {t : System rt} (st : Step s t) → is_input st ≡ false → work m t < work m s
  unfolding ensure tear_down requeue handle_cache_invalidated promote fail_sync clean_up announce
      finish
  Step-work (tears_down {was_watching} {was_ready} at) internal = ground arith
  Step-work (requeues at) internal = ground arith
  Step-work (reads j at there) internal = ground (arith, reader_works j away)
  Step-work (misses j at gone) internal = ground (arith, reader_works j missed)
  Step-work (invalidates j at) internal = ground (arith, reader_works j away)
  Step-work (sync_returns i {gen} at there) internal =
      waiter_works i (returned gen none) (goes_to i (returned gen none) s.world) refl refl
        (ground arith)
  Step-work (sync_fails i {gen} e at) internal =
      waiter_works i (returned gen (some e)) (goes_to i (returned gen (some e)) s.world) refl refl
        (ground arith)
  Step-work (promotes i {gen} at) internal = elim (Bool-cases (s.generation == gen)) [
    | inl same ↦
        waiter_works i announcing (after_promote i (promote gen s.world)) (ground arith)
          (ground arith) (ground arith)
    | inr stale ↦
        waiter_works i done (after_promote i (promote gen s.world)) (ground arith) (ground arith)
          (ground arith)
  ]
  Step-work (gives_up i {gen} {e} at) internal = elim (Bool-cases (s.generation == gen)) [
    | inl same ↦
        waiter_works i (cleaning e) (after_fail_sync i e (fail_sync gen s.world)) (ground arith)
          (ground arith) (ground arith)
    | inr stale ↦
        waiter_works i done (after_fail_sync i e (fail_sync gen s.world)) (ground arith)
          (ground arith) (ground arith)
  ]
  Step-work (cleans_up i {e} at) internal =
      waiter_works i done (finish i (clean_up s.world)) (ground arith) (ground arith) (ground arith)
  Step-work (announces i at) internal =
      waiter_works i done (finish i (announce s.world)) (ground arith) (ground arith) (ground arith)
  Step-work _ internal = ground arith
