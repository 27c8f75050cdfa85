-- ===== src/Builder/Outcome.antt =====
-- When `Build` of pkg/dynamicwatch/builder.go succeeds.
use dynamic_crd_watch.Base.{
  ℕ, ◌≡◌, inl, inr, Bool, true, false, not, ◌&&◌, ◌||◌, none, some, codes, is_some, arith,
  Option-cases,
}
use dynamic_crd_watch.Base.Failing.{ok, err, Result-cases}
use dynamic_crd_watch.Builder.Library.{Manager, CacheOptions, crds, objects, created}
use dynamic_crd_watch.Builder.Options.{WatcherBuilder}
use dynamic_crd_watch.Builder.Name.{validate_crd_name}
use dynamic_crd_watch.Builder.Build.{
  BuildError, Built, choose_crd_cache, create_object_cache, choose_handler, validate, assemble,
  build,
}

module _ {m : Manager} where
  -- A valid name, one of the two event mappings and not both, a callback, and a type in the scheme.
  abbrev pub is_complete : WatcherBuilder m → Bool
  is_complete b =
      validate_crd_name (codes b.crd_name)
      && (is_some b.obj_handler || is_some b.owner_type)
      && not (is_some b.obj_handler && is_some b.owner_type)
      && is_some b.requeue_all
      && not (is_some m.gvk_for_type)

  validate_unchanged : (b : WatcherBuilder m) (s : m.State) → (validate m b s).1 ≡ s
  unfolding validate
  validate_unchanged b s = ground arith

  pub validate_complete :
      (b : WatcherBuilder m) (s : m.State) {fn : m.Requeue}
      → (validate m b s).0 ≡ ok fn
      → (is_complete b ≡ true) × (b.requeue_all ≡ some fn)
  unfolding validate
  validate_complete b s h = ground arith

  complete_validate :
      (b : WatcherBuilder m) (s : m.State)
      → is_complete b ≡ true
      → (fn : m.Requeue) × ((validate m b s).0 ≡ ok fn)
  unfolding validate
  complete_validate b s h = elim (Option-cases b.requeue_all) [
    | inl e ↦ absurd (ground arith)
    | inr (fn, e) ↦ (fn, ground arith)
  ]

  -- A builder that is not complete is refused before anything is created or registered: `Build` fails
  -- and leaves the manager as it was.
  pub build_refuses :
      (upper : ℕ → ℕ) (b : WatcherBuilder m) (s : m.State)
      → is_complete b ≡ false
      → (e : BuildError m.Error) × (build m upper b s ≡ (err e, s))
  unfolding build
  build_refuses upper b s h = elim (Result-cases (validate m b s).0) [
    | inl (fn, e) ↦ absurd (ground (arith, validate_complete b s {fn = fn} e))
    | inr (x, e) ↦ (x, ground (arith, validate_unchanged b s))
  ]

  -- The steps of the libraries, all of them successful in every state.
  pub record Succeeds (b : WatcherBuilder m) : Type 0 where
    pub creates :
        (opts : CacheOptions) (s : m.State) → (c : m.Cache) × ((m.new_cache opts s).0 ≡ created c)
    pub adds : (c : m.Cache) (s : m.State) → (m.add c s).0 ≡ none
    pub owner : (o : m.Owner) → b.owner_type ≡ some o → m.gvk_for_owner o ≡ none

  choose_crd_cache_ok :
      (b : WatcherBuilder m) (s : m.State)
      → Succeeds b
      → (c : m.Cache) × ((choose_crd_cache m b s).0 ≡ ok c)
  unfolding choose_crd_cache
  choose_crd_cache_ok b s lib = elim (Option-cases b.crd_cache) [
    | inr (c, e) ↦ (c, ground arith)
    | inl e ↦
        let (c, made) = lib.creates (crds (some b.crd_name)) s in
        (c, ground (arith, lib.adds c (m.new_cache (crds (some b.crd_name)) s).1))
  ]

  create_object_cache_ok :
      (b : WatcherBuilder m) (s : m.State)
      → Succeeds b
      → (c : m.Cache) × ((create_object_cache m b s).0 ≡ ok c)
  unfolding create_object_cache
  create_object_cache_ok b s lib =
      let opts : CacheOptions = objects true b.default_namespaces in
      let (c, made) = lib.creates opts s in (c, ground (arith, lib.adds c (m.new_cache opts s).1))

  choose_handler_ok :
      (b : WatcherBuilder m) (s : m.State)
      → is_complete b ≡ true
      → Succeeds b
      → (h : m.Handler) × ((choose_handler m b s).0 ≡ ok h)
  unfolding choose_handler
  choose_handler_ok b s h lib = elim (Option-cases b.owner_type) [
    | inr (o, e) ↦ (m.enqueue_for_owner o b.owner_opts, ground (arith, lib.owner o))
    | inl e ↦ elim (Option-cases b.obj_handler) [
      | inl f ↦ absurd (ground arith)
      | inr (x, f) ↦ (x, ground arith)
    ]
  ]

  -- A complete builder is never refused for a reason of its own: `Build` succeeds wherever the steps of
  -- the libraries do.
  pub build_total :
      (upper : ℕ → ℕ) (b : WatcherBuilder m) (s : m.State)
      → is_complete b ≡ true
      → Succeeds b
      → (w : Built m) × ((build m upper b s).0 ≡ ok w)
  unfolding build
  build_total upper b s h lib =
      let (fn, e₁) = complete_validate b s h in
      let s₁ : m.State = (validate m b s).1 in
      let (crd_cache, e₂) = choose_crd_cache_ok b s₁ lib in
      let s₂ : m.State = (choose_crd_cache m b s₁).1 in
      let (obj_cache, e₃) = create_object_cache_ok b s₂ lib in
      let s₃ : m.State = (create_object_cache m b s₂).1 in
      let (handler, e₄) = choose_handler_ok b s₃ h lib in
      (assemble m upper b fn crd_cache obj_cache handler, ground arith)
