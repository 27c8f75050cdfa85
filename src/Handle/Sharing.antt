-- ===== src/Handle/Sharing.antt =====
-- What calls through the handles of pkg/dynamicwatch/handle.go do to the watchers.
use dynamic_crd_watch.Condition
use dynamic_crd_watch.Handle
use dynamic_crd_watch.Watcher
use dynamic_crd_watch.Base.{
  ℕ, ◌≡◌, refl, ap, ◌∙◌, inl, inr, Bool, true, false, Option, none, some, List, [], ◌∷◌, ◌==◌,
  arith, if◌then◌else◌, Bool-cases,
}
use dynamic_crd_watch.Condition.{Condition}
use dynamic_crd_watch.Handle.{WatchHandle, Watchers}
use dynamic_crd_watch.Watcher.{Request, ObjectList, Runtime, WatcherStatus, World, Tried, panicked}

pub data Call (rt : Runtime) : Type 0 where
  ensures : Call rt
  gets : Request → rt.Object → Call rt
  lists : rt.ListOptions → ObjectList rt.Object → Call rt
  asks_available : Call rt
  asks_status : Call rt
  asks_condition : Call rt

pub data Answer (rt : Runtime) : Type 0 where
  ensured : Option Bool → Answer rt
  got : Tried rt.Error rt.Object → Answer rt
  listed : Tried rt.Error (ObjectList rt.Object) → Answer rt
  is_available : Option Bool → Answer rt
  has_status : Option WatcherStatus → Answer rt
  has_condition : Option Condition → Answer rt

abbrev pub is_at : ℕ → WatchHandle → Bool
is_at i h = elim h.w [ none ↦ false | some j ↦ j == i ]

-- What goes through the handles on one watcher.
abbrev pub at_watcher : {X : Type 0} → ℕ → List (WatchHandle × X) → List X
at_watcher i [] = []
at_watcher i ((h, x) ∷ rest) = if is_at i h then x ∷ at_watcher i rest else at_watcher i rest

module _ {rt : Runtime} where
  abbrev answered : {A S : Type 0} → (A → Answer rt) → A × S → Answer rt × S
  answered f (a, s) = (f a, s)

  -- A call through a handle.
  abbrev pub call : WatchHandle → Call rt → Watchers rt → Answer rt × Watchers rt
  call h ensures ws = answered ensured (Handle.ensure h ws)
  call h (gets key obj) ws = answered got (Handle.try_get h key obj ws)
  call h (lists opts l) ws = answered listed (Handle.try_list h opts l ws)
  call h asks_available ws = answered is_available (Handle.available h ws)
  call h asks_status ws = answered has_status (Handle.status h ws)
  call h asks_condition ws = answered has_condition (Handle.condition h ws)

  -- The same call on a watcher.
  abbrev pub call_directly : Call rt → World rt → Answer rt × World rt
  call_directly ensures v = answered ensured (Watcher.ensure v)
  call_directly (gets key obj) v = answered got (Watcher.try_get key obj v)
  call_directly (lists opts l) v = answered listed (Watcher.try_list opts l v)
  call_directly asks_available v = (is_available (some (Watcher.available v.watcher)), v)
  call_directly asks_status v = (has_status (some (Watcher.status v.watcher)), v)
  call_directly asks_condition v = (has_condition (some (Condition.condition v.watcher)), v)

  abbrev pub run :
      List (WatchHandle × Call rt) → Watchers rt → List (WatchHandle × Answer rt) × Watchers rt
  run [] ws = ([], ws)
  run ((h, c) ∷ rest) ws =
      let (a, ws₁) = call h c ws in let (as', ws₂) = run rest ws₁ in ((h, a) ∷ as', ws₂)

  abbrev pub run_directly : List (Call rt) → World rt → List (Answer rt) × World rt
  run_directly [] v = ([], v)
  run_directly (c ∷ rest) v =
      let (a, v₁) = call_directly c v in let (as', v₂) = run_directly rest v₁ in (a ∷ as', v₂)

  call_here :
      (i : ℕ) (h : WatchHandle) (c : Call rt) (ws : Watchers rt)
      → is_at i h ≡ true
      → ((call h c ws).0 ≡ (call_directly c (ws i)).0)
        × ((call h c ws).1 i ≡ (call_directly c (ws i)).1)
  unfolding Handle.ensure Handle.try_get Handle.try_list Handle.available Handle.status
      Handle.condition
  call_here i h ensures ws here = ground arith
  call_here i h _ ws here = ground arith

  call_elsewhere :
      (i : ℕ) (h : WatchHandle) (c : Call rt) (ws : Watchers rt)
      → is_at i h ≡ false
      → (call h c ws).1 i ≡ ws i
  unfolding Handle.ensure Handle.try_get Handle.try_list Handle.available Handle.status
      Handle.condition
  call_elsewhere i h ensures ws apart = ground arith
  call_elsewhere i h _ ws apart = ground arith

  -- In any sequence of calls through handles, the calls through all handles on one watcher get the
  -- answers, and leave that watcher in the state, that the same calls on the watcher itself give in
  -- that order: copies of a handle share their watcher, and the calls through other handles, nil
  -- ones too, have no part in it.
  pub run-at_watcher :
      (i : ℕ) (calls : List (WatchHandle × Call rt)) (ws : Watchers rt)
      → (at_watcher i (run calls ws).0, (run calls ws).1 i)
        ≡ run_directly (at_watcher i calls) (ws i)
  run-at_watcher i [] ws = refl
  run-at_watcher i ((h, c) ∷ rest) ws =
      let later = run-at_watcher i rest (call h c ws).1 in
      elim (Bool-cases (is_at i h)) [
        | inl here ↦
            let (answer, state) = call_here i h c ws here in
            let (a, v) = call_directly c (ws i) in
            let (as', v') = run_directly (at_watcher i rest) v in
            rw here (
              ap (λ r. ((call h c ws).0 ∷ r.0, r.1))
                (later ∙ ap (run_directly (at_watcher i rest)) state)
              ∙ ap (λ x. (x ∷ as', v')) answer)
        | inr apart ↦
            rw apart (later ∙ ap (run_directly (at_watcher i rest)) (call_elsewhere i h c ws apart))
      ]
