-- ===== src/Builder/Assembled.antt =====
-- What a watcher is that `Build` of pkg/dynamicwatch/builder.go returns.
use mathlib.Core.Path.{subst}
use dynamic_crd_watch.Base.{
  ℕ, ◌<◌, ◌≡◌, ◌≢◌, ◌⊎◌, ap, inl, inr, true, Bool-cases, some, [], codes, is_some, arith,
  Option-cases, none, refl,
}
use dynamic_crd_watch.Base.Failing.{ok, err, return, ◌>>=◌, >>=-eq-ok, Result-cases}
use dynamic_crd_watch.Condition.Naming.{condition_type_from_crd_name}
use dynamic_crd_watch.Watcher.{new_watcher}
use dynamic_crd_watch.Builder.Library.{Manager, objects, Created, created, failed}
use dynamic_crd_watch.Builder.Options.{WatcherBuilder}
use dynamic_crd_watch.Builder.Outcome.{is_complete, validate_complete, build_refuses}
use dynamic_crd_watch.Builder.Build.{
  BuildError, Built, Step, default_sync_timeout, choose_crd_cache, create_object_cache,
  choose_handler, validate, assemble, build,
}

Created-cases :
    {Error Cache : Type 0} (r : Created Error Cache)
    → ((c : Cache) × (r ≡ created c)) ⊎ ((e : Error) × (r ≡ failed e))
Created-cases (created c) = inl (c, refl)
Created-cases (failed e) = inr (e, refl)

module _ {m : Manager} where
  -- What a built watcher has of its builder.
  pub record IsBuilt (upper : ℕ → ℕ) (b : WatcherBuilder m) (w : Built m) : Type 0 where
    pub complete : is_complete b ≡ true
    pub new : w.watcher ≡ new_watcher b.crd_name w.condition_type (is_some b.recorder)
    pub callback : b.requeue_all ≡ some w.requeue_all
    pub predicates : w.predicates ≡ b.predicates
    pub timeout_pos : 0 < w.sync_timeout
    pub timeout : 0 < b.sync_timeout → w.sync_timeout ≡ b.sync_timeout
    pub default_timeout : b.sync_timeout ≡ 0 → w.sync_timeout ≡ default_sync_timeout
    pub given_type : b.condition_type ≢ [] → w.condition_type ≡ b.condition_type
    pub derived_type :
        b.condition_type ≡ []
        → w.condition_type ≡ condition_type_from_crd_name upper (codes b.crd_name)
    pub shared : (c : m.Cache) → b.crd_cache ≡ some c → w.crd_cache ≡ c
    pub handler : (h : m.Handler) → b.obj_handler ≡ some h → w.obj_handler ≡ h
    pub owner_handler :
        (o : m.Owner) → b.owner_type ≡ some o → w.obj_handler ≡ m.enqueue_for_owner o b.owner_opts
    pub private :
        (u u' v : m.State) × (m.new_cache (objects true b.default_namespaces) u
          ≡ (created w.obj_cache, u'))
        × (m.add w.obj_cache u' ≡ (none, v))

  assemble-IsBuilt :
      (upper : ℕ → ℕ) (b : WatcherBuilder m) (fn : m.Requeue) (crd obj : m.Cache)
      (handler : m.Handler)
      → is_complete b ≡ true
      → b.requeue_all ≡ some fn
      → ((c : m.Cache) → b.crd_cache ≡ some c → crd ≡ c)
      → ((h : m.Handler) → b.obj_handler ≡ some h → handler ≡ h)
      → ((o : m.Owner) → b.owner_type ≡ some o → handler ≡ m.enqueue_for_owner o b.owner_opts)
      → ((u u' v : m.State) × (m.new_cache (objects true b.default_namespaces) u
            ≡ (created obj, u'))
          × (m.add obj u' ≡ (none, v)))
      → IsBuilt upper b (assemble m upper b fn crd obj handler)
  unfolding assemble
  assemble-IsBuilt upper b fn crd obj handler complete callback shared chosen owned made = record {
    complete = complete;
    new = ground arith;
    callback = ground arith;
    predicates = ground arith;
    timeout_pos = ground arith;
    timeout = λ set. ground arith;
    default_timeout = λ unset. ground arith;
    given_type = λ set. ground arith;
    derived_type = λ unset. ground arith;
    shared = shared;
    handler = chosen;
    owner_handler = owned;
    private = made;
  }

  choose_crd_cache-shared :
      (b : WatcherBuilder m) (s : m.State) (c given : m.Cache)
      → (choose_crd_cache m b s).0 ≡ ok c
      → b.crd_cache ≡ some given
      → c ≡ given
  unfolding choose_crd_cache
  choose_crd_cache-shared b s c given h e = ground arith

  create_object_cache-private :
      (b : WatcherBuilder m) (s : m.State) (c : m.Cache) {t : m.State}
      → create_object_cache m b s ≡ (ok c, t)
      → (u : m.State) × (m.new_cache (objects true b.default_namespaces) s ≡ (created c, u))
        × (m.add c u ≡ (none, t))
  unfolding create_object_cache
  create_object_cache-private b s c h =
      elim (Created-cases (m.new_cache (objects true b.default_namespaces) s).0) [
        | inr (x, e) ↦ absurd (ground arith)
        | inl (made, e) ↦
            let u : m.State = (m.new_cache (objects true b.default_namespaces) s).1 in
            elim (Option-cases (m.add made u).0) [
              | inr (x, f) ↦ absurd (ground arith)
              | inl f ↦ (u, ground arith, ground arith)
            ]
      ]

  choose_handler-state :
      (b : WatcherBuilder m) (s : m.State) (h : m.Handler) {t : m.State}
      → choose_handler m b s ≡ (ok h, t)
      → t ≡ s
  unfolding choose_handler
  choose_handler-state b s h e = elim (Option-cases b.owner_type) [
    | inl none_set ↦ ground arith
    | inr (o, set) ↦ elim (Option-cases (m.gvk_for_owner o)) [
      | inl f ↦ ground arith
      | inr (x, f) ↦ absurd (ground arith)
    ]
  ]

  validate-state :
      (b : WatcherBuilder m) (s : m.State) {fn : m.Requeue} {t : m.State}
      → validate m b s ≡ (ok fn, t)
      → t ≡ s
  unfolding validate
  validate-state b s h = ground arith

  choose_handler-given :
      (b : WatcherBuilder m) (s : m.State) (h given : m.Handler)
      → is_complete b ≡ true
      → (choose_handler m b s).0 ≡ ok h
      → b.obj_handler ≡ some given
      → h ≡ given
  unfolding choose_handler
  choose_handler-given b s h given complete e set = ground arith

  choose_handler-owned :
      (b : WatcherBuilder m) (s : m.State) (h : m.Handler) (o : m.Owner)
      → (choose_handler m b s).0 ≡ ok h
      → b.owner_type ≡ some o
      → h ≡ m.enqueue_for_owner o b.owner_opts
  unfolding choose_handler
  choose_handler-owned b s h o e set = elim (Option-cases (m.gvk_for_owner o)) [
    | inl f ↦ ground arith
    | inr (x, f) ↦ ground arith
  ]

  -- `Build` from the choice of the handler on, from the object cache on, and from the CRD cache on.
  abbrev from_assembly :
      (ℕ → ℕ) → WatcherBuilder m → m.Requeue → m.Cache → m.Cache → m.Handler → Step m (Built m)
  from_assembly upper b fn crd obj handler = return (assemble m upper b fn crd obj handler)

  abbrev from_handler :
      (ℕ → ℕ) → WatcherBuilder m → m.Requeue → m.Cache → m.Cache → Step m (Built m)
  from_handler upper b fn crd obj = choose_handler m b >>= from_assembly upper b fn crd obj

  abbrev from_object_cache : (ℕ → ℕ) → WatcherBuilder m → m.Requeue → m.Cache → Step m (Built m)
  from_object_cache upper b fn crd = create_object_cache m b >>= from_handler upper b fn crd

  abbrev from_crd_cache : (ℕ → ℕ) → WatcherBuilder m → m.Requeue → Step m (Built m)
  from_crd_cache upper b fn = choose_crd_cache m b >>= from_object_cache upper b fn

  -- Every watcher that `Build` returns comes of a complete builder and is as that asks: it has not
  -- started and knows nothing; its name, callback, predicates and recorder are the builder's; its
  -- timeout is the builder's or else 30 seconds; its condition type is the builder's or else derived
  -- from the name; its handler is the builder's or the one for the owner; its CRD cache is the shared
  -- one if there is one; and its object cache was created in the builder's namespaces and to fail on
  -- a missing informer, and added to the manager.
  pub build-IsBuilt :
      (upper : ℕ → ℕ) (b : WatcherBuilder m) (s : m.State) {w : Built m} {t : m.State}
      → build m upper b s ≡ (ok w, t)
      → IsBuilt upper b w
  unfolding build
  build-IsBuilt upper b s h =
      let (fn, s₁, e₁, h₁) = >>=-eq-ok (validate m b) (from_crd_cache upper b) s h in
      let (crd, s₂, e₂, h₂) =
        >>=-eq-ok (choose_crd_cache m b) (from_object_cache upper b fn) s₁ h₁ in
      let (obj, s₃, e₃, h₃) =
        >>=-eq-ok (create_object_cache m b) (from_handler upper b fn crd) s₂ h₂ in
      let (handler, s₄, e₄, h₄) =
        >>=-eq-ok (choose_handler m b) (from_assembly upper b fn crd obj) s₃ h₃ in
      let (complete, callback) = validate_complete b s {fn = fn} (ground arith) in
      subst (IsBuilt upper b) (ground arith) (
        assemble-IsBuilt upper b fn crd obj handler complete callback
          (λ c e. choose_crd_cache-shared b s₁ crd c (ground arith) e)
          (λ x e. choose_handler-given b s₃ handler x complete (ground arith) e)
          (λ o e. choose_handler-owned b s₃ handler o (ground arith) e)
          (let (u, made, added) = create_object_cache-private b s₂ obj e₃ in
            (s₂, u, s₃, made, added)))

  -- What `Build` does to the manager from `s` to `t`: it finds or makes the CRD cache, then creates the
  -- object cache of the watcher, and last adds that to the manager.
  abbrev pub IsOwn : WatcherBuilder m → Built m → m.State → m.State → Type 0
  IsOwn b w s t =
      (u u' : m.State) × (choose_crd_cache m b s ≡ (ok w.crd_cache, u))
      × (m.new_cache (objects true b.default_namespaces) u ≡ (created w.obj_cache, u'))
      × (m.add w.obj_cache u' ≡ (none, t))

  build-IsOwn :
      (upper : ℕ → ℕ) (b : WatcherBuilder m) (s : m.State) {w : Built m} {t : m.State}
      → build m upper b s ≡ (ok w, t)
      → IsOwn b w s t
  unfolding build assemble
  build-IsOwn upper b s h =
      let (fn, s₁, e₁, h₁) = >>=-eq-ok (validate m b) (from_crd_cache upper b) s h in
      let (crd, s₂, e₂, h₂) =
        >>=-eq-ok (choose_crd_cache m b) (from_object_cache upper b fn) s₁ h₁ in
      let (obj, s₃, e₃, h₃) =
        >>=-eq-ok (create_object_cache m b) (from_handler upper b fn crd) s₂ h₂ in
      let (handler, s₄, e₄, h₄) =
        >>=-eq-ok (choose_handler m b) (from_assembly upper b fn crd obj) s₃ h₃ in
      let (u, made, added) = create_object_cache-private b s₂ obj e₃ in
      let begun = validate-state b s e₁ in
      let handled = choose_handler-state b s₃ handler e₄ in
      (s₂, u, ground arith, ground arith, ground arith)

  -- `Build` either returns a watcher that is what its builder asks for, or an error. Every watcher
  -- that it returns comes of a complete builder and is as that asks: it has not started and knows
  -- nothing; its name, callback, predicates and recorder are the builder's; its timeout is the
  -- builder's or else 30 seconds; its condition type is the builder's or else derived from the
  -- name; its handler is the builder's or the one for the owner; its CRD cache is the shared one,
  -- if there is one. With the CRD cache found or made, its object cache is created, in the builder's
  -- namespaces and to fail on a missing informer, and then added to the manager, which is the last
  -- change to the manager. A builder that is not complete is refused
  -- before anything is created or registered: the manager is as it was.
  pub build_outcome :
      (upper : ℕ → ℕ) (b : WatcherBuilder m) (s : m.State)
      → let (r, t) = build m upper b s in
        ((w : Built m) × (r ≡ ok w) × IsBuilt upper b w × IsOwn b w s t)
        ⊎ ((e : BuildError m.Error) × (r ≡ err e) × ((is_complete b ≡ true) ⊎ (t ≡ s)))
  build_outcome upper b s = elim (Result-cases (build m upper b s).0) [
    | inl (w, e) ↦
        let whole : build m upper b s ≡ (ok w, (build m upper b s).1) =
          λ i. (e i, (build m upper b s).1) in
        inl (w, e, build-IsBuilt upper b s whole, build-IsOwn upper b s whole)
    | inr (x, e) ↦ elim (Bool-cases (is_complete b)) [
      | inl complete ↦ inr (x, e, inl complete)
      | inr lacking ↦
          let (y, refused) = build_refuses upper b s lacking in
          inr (x, e, inr (ap (λ r. r.1) refused))
    ]
  ]
