-- ===== src/System/Requeues.antt =====
-- What the goroutines around a watcher of pkg/dynamicwatch/watcher.go add to the work queue.
use mathlib.Core.List.{append-nil, append_assoc}
use dynamic_crd_watch.Base.{
  ℕ, ◌≡◌, ◌⊎◌, inl, inr, refl, ap, sym, ◌∙◌, Bool, true, false, ◌||◌, arith, Bool-cases, List, [],
  ◌++◌, if◌then◌else◌,
}
use dynamic_crd_watch.Watcher.{
  Request, Runtime, start, ensure, mark_present, mark_removed, tear_down, requeue,
  handle_cache_invalidated, promote, fail_sync, clean_up, announce, finish,
}
use dynamic_crd_watch.System.{
  System, Step, starts, tears_down, requeues, promotes, gives_up, cleans_up, announces,
}
use dynamic_crd_watch.System.Staleness.{Run, here, next}

-- The steps that call `requeueAll`.
abbrev pub requeues_parents : {rt : Runtime} {s t : System rt} → Step s t → Bool
requeues_parents (requeues at) = true
requeues_parents (cleans_up i at) = true
requeues_parents (announces i at) = true
requeues_parents _ = false

-- Such a step adds to the queue what `requeueAll` returns for the cluster and the cache as they are then,
-- and every other step leaves the queue alone.
Step-added :
    {rt : Runtime} {s t : System rt} (st : Step s t)
    → t.added ≡ (if requeues_parents st then s.added ++ rt.requeue_all t.outside else s.added)
unfolding start mark_present mark_removed tear_down requeue ensure handle_cache_invalidated promote
    fail_sync clean_up announce finish
Step-added (starts e) = ground arith
Step-added (tears_down {was_watching} {was_ready} at) = ground arith
Step-added (requeues at) = refl
Step-added {s = s} (promotes i {gen} at) = ground arith
Step-added {s = s} (gives_up i {gen} {e} at) = ground arith
Step-added {s = s} (cleans_up i {e} at) = elim (Bool-cases s.recorder) [
  | inl on ↦ ground arith
  | inr off ↦ ground arith
]
Step-added {s = s} (announces i at) = elim (Bool-cases s.recorder) [
  | inl on ↦ ground arith
  | inr off ↦ ground arith
]
Step-added _ = ground arith

grown :
    {l l' : List Request} (base earlier more : List Request)
    → l ≡ base ++ earlier
    → l' ≡ l ++ more
    → l' ≡ base ++ (earlier ++ more)
grown base earlier more e e' = e' ∙ ap (λ x. x ++ more) e ∙ append_assoc base earlier more

second_or : (a b : Bool) → a || b ≡ true → a ≡ false → b ≡ true
second_or a b h e = ground arith

Step-loud :
    {rt : Runtime} {s t : System rt} (st : Step s t)
    → requeues_parents st ≡ true
    → t.added ≡ s.added ++ rt.requeue_all t.outside
Step-loud st loud = Step-added st ∙ rw loud refl

Step-silent :
    {rt : Runtime} {s t : System rt} (st : Step s t)
    → requeues_parents st ≡ false
    → t.added ≡ s.added
Step-silent st silent = Step-added st ∙ rw silent refl

module _ {rt : Runtime} {s : System rt} where
  abbrev pub requeued : {k : ℕ} {t : System rt} → Run s k t → Bool
  requeued here = false
  requeued (next run st) = requeues_parents st || requeued run

  -- The cluster and the cache were `o` after some step of the run.
  abbrev pub IsMet : rt.Outside → {k : ℕ} {t : System rt} → Run s k t → Type 0
  IsMet o here = ⊥
  IsMet o (next {u = u} run st) = (o ≡ u.outside) ⊎ IsMet o run

  -- Among the requests that the run has added to the queue are, next to each other and in order, all
  -- that `requeueAll` returns for the cluster and the cache after one of its steps.
  abbrev pub Told : {k : ℕ} {t : System rt} → Run s k t → Type 0
  Told {t = t} run =
      (o : rt.Outside) × (earlier later : List Request) × IsMet o run
      × (t.added ≡ s.added ++ (earlier ++ (rt.requeue_all o ++ later)))

  -- The queue only grows.
  Run-added :
      {k : ℕ} {t : System rt} → Run s k t → (more : List Request) × (t.added ≡ s.added ++ more)
  Run-added here = ([], sym (append-nil s.added))
  Run-added (next {u = u} run st) =
      let (more, e) = Run-added run in
      elim (Bool-cases (requeues_parents st)) [
        | inl loud ↦ (
          more ++ rt.requeue_all u.outside,
          grown s.added more (rt.requeue_all u.outside) e (Step-loud st loud),
        )
        | inr silent ↦ (more, Step-silent st silent ∙ e)
      ]

  pub requeued-Told : {k : ℕ} {t : System rt} (run : Run s k t) → requeued run ≡ true → Told run
  requeued-Told here loud = absurd (ground arith)
  requeued-Told (next {t = t} {u} run st) told = elim (Bool-cases (requeues_parents st)) [
    | inl loud ↦
        let (more, e) = Run-added run in
        let calls : u.added ≡ t.added ++ rt.requeue_all u.outside = Step-loud st loud in
        (
          u.outside,
          more,
          [],
          inl refl,
          grown s.added more (rt.requeue_all u.outside) e calls
              ∙ ap (λ l. s.added ++ (more ++ l)) (sym (append-nil (rt.requeue_all u.outside))),
        )
    | inr silent ↦
        let (o, earlier, later, met, e) = requeued-Told run (second_or _ _ told silent) in
        (o, earlier, later, inr met, Step-silent st silent ∙ e)
  ]
