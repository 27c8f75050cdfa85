-- ===== src/Controller/Succeeds.antt =====
-- When the set-ups of internal/controller/widget_controller.go succeed.
use dynamic_crd_watch.Base.{
  ℕ, String, ◌≡◌, refl, inl, inr, true, false, Option, none, some, List, [], ◌∷◌, arith, codes,
  str_eq,
}
use dynamic_crd_watch.Base.Text.{Text}
use dynamic_crd_watch.Base.Failing.{ok, Failing, >>=_ok}
use dynamic_crd_watch.Builder.{
  Manager, CacheOptions, crds, created, WatcherBuilder, Built, build, validate_crd_name,
}
use dynamic_crd_watch.Builder.Outcome.{is_complete, Succeeds, build_total}
use dynamic_crd_watch.Registry.{
  find, has, register, enlist, RegisterError, new_crd_cache, new_registry, Setup, register_on,
}
use dynamic_crd_watch.Registry.Laws.{register_on-Outcome}
use dynamic_crd_watch.Widget.{Widget}
use dynamic_crd_watch.Controller.Mapping.{field_indexes}
use dynamic_crd_watch.Controller.Setup.{
  theme_crd_name, Wiring, SetupError, wrap, index_all, plugin_watch_builder, theme_watch_builder,
  setup_with_manager, enroll, plugin_handle_builder, theme_handle_builder, setup_on_registry,
  on_new_registry, setup_using_registry,
}
use dynamic_crd_watch.Controller.Wired.{
  plugin_builder, theme_builder, from_indexes, from_themes, from_plugins,
}
use dynamic_crd_watch.Controller.Enrolled.{
  registry_from_indexes, registry_from_themes, enroll-eq-ok, blank,
}

-- The calls of the libraries, all of them successful in every state.
pub record IsFine {m : Manager} (w : Wiring m) : Type 0 where
  pub creates :
      (opts : CacheOptions) (s : m.State) → (c : m.Cache) × ((m.new_cache opts s).0 ≡ created c)
  pub adds : (c : m.Cache) (s : m.State) → (m.add c s).0 ≡ none
  pub known : m.gvk_for_type ≡ none
  pub indexes :
      (field : String) (values : Widget → List String) (s : m.State)
      → (w.index_field field values s).0 ≡ none
  pub completes : (sources : List (Built m)) (s : m.State) → (w.complete sources s).0 ≡ none

pub wrap_ok :
    {State E F A : Type 0} (f : E → F) (c : Failing State E A) (s : State) (a : A)
    → (c s).0 ≡ ok a
    → (wrap f c s).0 ≡ ok a
wrap_ok f c s a e = ground arith

module _ {m : Manager} (upper : ℕ → ℕ) (w : Wiring m) (fine : IsFine w) where
  new_crd_cache_ok : (s : m.State) → (c : m.Cache) × ((new_crd_cache m true s).0 ≡ ok c)
  unfolding new_crd_cache
  new_crd_cache_ok s =
      let (c, e) = fine.creates (crds none) s in
      (c, ground (arith, fine.adds c (m.new_cache (crds none) s).1))

  index_all_ok :
      (l : List (String × (Widget → List String))) (s : m.State) → (index_all upper w l s).0 ≡ ok tt
  unfolding index_all
  index_all_ok [] s = refl
  index_all_ok ((field, values) ∷ rest) s =
      ground
        (arith, fine.indexes field values s, index_all_ok rest (w.index_field field values s).1)

  from_indexes_ok : (p t : Built m) (s : m.State) → (from_indexes upper w p t s).0 ≡ ok (p, t)
  from_indexes_ok p t s = ground (
    arith,
    index_all_ok field_indexes s,
    fine.completes (p ∷ t ∷ []) (index_all upper w field_indexes s).1,
  )

  -- Their names are valid, and a handler and a callback are given.
  plugin_complete :
      (type : Text) (c : Option m.Cache) → is_complete (plugin_builder upper w type c) ≡ true
  unfolding validate_crd_name
  plugin_complete type c = ground (arith, fine.known)

  theme_complete :
      (type : Text) (c : Option m.Cache) → is_complete (theme_builder upper w type c) ≡ true
  unfolding validate_crd_name
  theme_complete type c = ground (arith, fine.known)

  chained_Succeeds : (b : WatcherBuilder m) → b.owner_type ≡ none → Succeeds b
  chained_Succeeds b e = record {
    creates = fine.creates;
    adds = fine.adds;
    owner = λ o f. ground arith;
  }

  -- `SetupWithManager` succeeds wherever the calls of the libraries do: no builder panics
  -- or is refused.
  pub setup_with_manager_total :
      (s : m.State) → (p t : Built m) × ((setup_with_manager upper w s).0 ≡ ok (p, t))
  unfolding setup_with_manager plugin_watch_builder theme_watch_builder
  setup_with_manager_total s =
      let (c, e₁) = new_crd_cache_ok s in
      let pb : WatcherBuilder m = plugin_builder upper w [] (some c) in
      let tb : WatcherBuilder m = theme_builder upper w [] (some c) in
      let make = wrap SetupError.creating_crd_cache (new_crd_cache m true) in
      let s₁ : m.State = (make s).1 in
      let make_p = wrap SetupError.plugin_watch (build m upper pb) in
      let (p, e₂) =
        build_total upper pb s₁ (plugin_complete [] (some c)) (chained_Succeeds pb refl) in
      let s₂ : m.State = (make_p s₁).1 in
      let make_t = wrap SetupError.theme_watch (build m upper tb) in
      let (t, e₃) =
        build_total upper tb s₂ (theme_complete [] (some c)) (chained_Succeeds tb refl) in
      let s₃ : m.State = (make_t s₂).1 in
      let third =
        >>=_ok make_t (from_indexes upper w p) s₂ t (p, t)
          (wrap_ok SetupError.theme_watch (build m upper tb) s₂ t e₃) (from_indexes_ok p t s₃) in
      let second =
        >>=_ok make_p (from_themes upper w c) s₁ p (p, t)
          (wrap_ok SetupError.plugin_watch (build m upper pb) s₁ p e₂) third in
      let first =
        >>=_ok make (from_plugins upper w) s c (p, t)
          (wrap_ok SetupError.creating_crd_cache (new_crd_cache m true) s c e₁) second in
      (p, t, first)

  -- A name that is free is enrolled, and another one that was free still is.
  enroll_ok :
      (f : RegisterError m.Error → SetupError m.Error) (b : WatcherBuilder m) (s : Setup m)
      → find b.crd_name s.registry.watchers ≡ none
      → is_complete b ≡ true
      → b.owner_type ≡ none
      → (v : Built m) × ((enroll upper w f b s).0 ≡ ok v)
  unfolding register_on enlist has register
  enroll_ok f b s free complete unowned =
      let shared : WatcherBuilder m = record b { crd_cache = some s.registry.crd_cache } in
      let (v, e) = build_total upper shared s.manager complete (chained_Succeeds shared unowned) in
      (v, ground arith)

  enroll_free :
      (f : RegisterError m.Error → SetupError m.Error) (b : WatcherBuilder m) (s : Setup m)
      (v : Built m) (name : String)
      → (enroll upper w f b s).0 ≡ ok v
      → str_eq b.crd_name name ≡ false
      → find name s.registry.watchers ≡ none
      → find name (enroll upper w f b s).1.registry.watchers ≡ none
  enroll_free f b s v name e differs free =
      let t : Setup m = (enroll upper w f b s).1 in
      let registers = enroll-eq-ok upper w f b s {v = v} {t = t} (ground arith) in
      elim (register_on-Outcome upper b s name registers) [
        | inl (x, _, _, g, _, _, _) ↦ ground arith
        | inr (x, g, _, _, _) ↦ absurd (ground arith)
      ]

  registry_from_indexes_ok :
      (p t : Built m) (s : Setup m) → (registry_from_indexes upper w p t s).0 ≡ ok (p, t)
  registry_from_indexes_ok p t s = ground (
    arith,
    index_all_ok field_indexes s.manager,
    fine.completes s.sources (index_all upper w field_indexes s.manager).1,
  )

  setup_on_registry_ok :
      (s : m.State) (c : m.Cache)
      → (p t : Built m) × ((setup_on_registry upper w (blank upper w s c)).0 ≡ ok (p, t))
  unfolding setup_on_registry plugin_handle_builder theme_handle_builder find
  setup_on_registry_ok s c =
      let pb : WatcherBuilder m = plugin_builder upper w (codes "PluginConfigAvailable") none in
      let tb : WatcherBuilder m = theme_builder upper w (codes "ThemeAvailable") none in
      let s₁ : Setup m = blank upper w s c in
      let enroll_p = enroll upper w SetupError.registering_plugin pb in
      let (p, e₁) =
        enroll_ok SetupError.registering_plugin pb s₁ refl
          (plugin_complete (codes "PluginConfigAvailable") none) refl in
      let s₂ : Setup m = (enroll_p s₁).1 in
      let enroll_t = enroll upper w SetupError.registering_theme tb in
      let free = enroll_free SetupError.registering_plugin pb s₁ p theme_crd_name e₁ refl refl in
      let (t, e₂) =
        enroll_ok SetupError.registering_theme tb s₂ free
          (theme_complete (codes "ThemeAvailable") none) refl in
      let s₃ : Setup m = (enroll_t s₂).1 in
      let second =
        >>=_ok enroll_t (registry_from_indexes upper w p) s₂ t (p, t) e₂
          (registry_from_indexes_ok p t s₃) in
      (p, t, >>=_ok enroll_p (registry_from_themes upper w) s₁ p (p, t) e₁ second)

  on_new_registry_ok :
      {A : Type 0} (k : Failing (Setup m) (SetupError m.Error) A) (s : m.State)
      → ((c : m.Cache) (v : m.State) → (a : A) × ((k (blank upper w v c)).0 ≡ ok a))
      → (a : A) × (reg : Setup m) × ((on_new_registry upper w k s).0 ≡ ok (a, reg))
  unfolding on_new_registry new_registry
  on_new_registry_ok k s goes =
      let (c, e) = new_crd_cache_ok s in
      let v : m.State = (new_crd_cache m true s).1 in
      let (a, f) = goes c v in (a, (k (blank upper w v c)).1, ground arith)

  -- `SetupWithManagerUsingRegistry` succeeds wherever the calls of the libraries do: no builder panics,
  -- no name is taken, and nothing is refused.
  pub setup_using_registry_total :
      (s : m.State)
      → (p t : Built m) × (reg : Setup m) × ((setup_using_registry upper w s).0 ≡ ok ((p, t), reg))
  unfolding setup_using_registry
  setup_using_registry_total s =
      let ((p, t), reg, e) =
        on_new_registry_ok (setup_on_registry upper w) s
          (λ c v. let (p, t, e) = setup_on_registry_ok v c in ((p, t), e)) in
      (p, t, reg, e)
