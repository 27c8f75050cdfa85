-- ===== src/Command/Stages.antt =====
-- The steps of the command of cmd/main.go up to `Start`.
use dynamic_crd_watch.Base.{
  ℕ, ◌≡◌, ◌⊎◌, refl, ap, ◌∙◌, inl, inr, List, arith, codes, Option, none, Option-cases,
}
use dynamic_crd_watch.Base.Text.{Text}
use dynamic_crd_watch.Base.Failing.{
  ok, Failing, ◌>>=◌, ◌>>◌, return, >>=-eq-ok, >>=_assoc, >>=_alike,
}
use dynamic_crd_watch.Builder.{Manager, Built}
use dynamic_crd_watch.Controller.Setup.{
  plugin_config_crd_name, theme_crd_name, Wiring, wrap, setup_with_manager,
}
use dynamic_crd_watch.Controller.Wired.{IsWatch, setup_with_manager-IsWatch, wrap-eq-ok}
use dynamic_crd_watch.Command.Flags.{Flags, Parsed, parsed, help, bad_usage, parse_flags}
use dynamic_crd_watch.Command.Servers.{manager_options}
use dynamic_crd_watch.Command.Program.{
  Libraries, Ending, no_controller, no_manager, no_health_check, no_ready_check, stopped, checked,
  init, read_flags, load_config, prepare, main, process,
}

pub Parsed-cases :
    {S : Type 0} (r : Parsed S) → ((a : S) × (r ≡ parsed a)) ⊎ ((r ≡ help) ⊎ (r ≡ bad_usage))
Parsed-cases (parsed a) = inl (a, refl)
Parsed-cases help = inr (inl refl)
Parsed-cases bad_usage = inr (inr refl)

module _ {m : Manager} (upper : ℕ → ℕ) (w : Wiring m) (lib : Libraries m) where
  -- The command up to `Start`, from each of its steps on.
  abbrev pub from_config : Flags → Failing m.State (Ending m.Error) (Built m × Built m)
  from_config f = load_config lib >>= λ config. prepare lib upper w f config

  abbrev pub from_flags : List Text → Failing m.State (Ending m.Error) (Built m × Built m)
  from_flags args = read_flags lib args >>= from_config

  abbrev pub before_start : List Text → Failing m.State (Ending m.Error) (Built m × Built m)
  before_start args = init lib >>= λ _. from_flags args

  abbrev pub run_manager : Built m × Built m → Failing m.State (Ending m.Error) (Unit {0})
  run_manager _ = checked stopped lib.start

  pub process_split :
      (args : List Text) (s : m.State)
      → (before_start args >>= run_manager) s ≡ process lib upper w args s
  unfolding process main
  process_split args s =
      >>=_assoc (init lib) (λ _. from_flags args) run_manager s
      ∙ >>=_alike (init lib) (λ _. from_flags args >>= run_manager) (λ _. main lib upper w args) s
          (λ _ t.
            >>=_assoc (read_flags lib args) from_config run_manager t
            ∙ >>=_alike (read_flags lib args) (λ f. from_config f >>= run_manager)
                (λ f. load_config lib >>= λ c. prepare lib upper w f c >>= run_manager) t
                (λ f u. >>=_assoc (load_config lib) (prepare lib upper w f) run_manager u))

  -- The command got as far as `Start`, from the state `v`: with flags read from the arguments, and then,
  -- one after the other up to `v`, with the manager made with the options of the flags, the two
  -- watchers set up by the controller on one CRD cache, and both checks added.
  pub record IsReady (args : List Text) (v : m.State) : Type 0 where
    pub flags : Flags
    pub reads :
        (z : lib.Settings) × (parse_flags lib.library_flags lib.settings args ≡ parsed (flags, z))
    pub config : lib.Config
    pub plugin : Built m
    pub theme : Built m
    pub s₀ : m.State
    pub s₁ : m.State
    pub s₂ : m.State
    pub s₃ : m.State
    pub made : lib.new_manager config (manager_options lib.new_webhook_server flags) s₀ ≡ (none, s₁)
    pub set_up : setup_with_manager upper w s₁ ≡ (ok (plugin, theme), s₂)
    pub healthy : lib.add_healthz_check "healthz" s₂ ≡ (none, s₃)
    pub ready : lib.add_readyz_check "readyz" s₃ ≡ (none, v)
    pub cache : m.Cache
    pub plugin_is :
        IsWatch plugin_config_crd_name w.plugin_config_to_widgets w.all_widgets_with_plugin_ref
          (codes "PluginconfigsAvailable")
          cache
          plugin
    pub theme_is :
        IsWatch theme_crd_name w.theme_to_widgets w.all_widgets_with_theme_ref
          (codes "ThemesAvailable")
          cache
          theme

  read_flags-eq-ok :
      (args : List Text) (s : m.State) {f : Flags} {t : m.State}
      → read_flags lib args s ≡ (ok f, t)
      → (z : lib.Settings) × (parse_flags lib.library_flags lib.settings args ≡ parsed (f, z))
  read_flags-eq-ok args s h =
      elim (Parsed-cases (parse_flags lib.library_flags lib.settings args)) [
        | inl ((f', z), e) ↦ (z, ground arith)
        | inr (inl e) ↦ absurd (ground arith)
        | inr (inr e) ↦ absurd (ground arith)
      ]

  checked-eq-ok :
      (failed : m.Error → Ending m.Error) (call : m.State → Option m.Error × m.State) (s : m.State)
      {t : m.State}
      → checked failed call s ≡ (ok tt, t)
      → call s ≡ (none, t)
  checked-eq-ok failed call s h = elim (Option-cases (call s).0) [
    | inl e ↦ ground arith
    | inr (x, e) ↦ absurd (ground arith)
  ]

  abbrev pub check_health : Built m × Built m → Failing m.State (Ending m.Error) (Built m × Built m)
  check_health watchers =
      checked no_health_check (lib.add_healthz_check "healthz")
      >> (checked no_ready_check (lib.add_readyz_check "readyz") >> return watchers)

  check_health-eq-ok :
      (r : Built m × Built m) (s : m.State) {p t : Built m} {v : m.State}
      → check_health r s ≡ (ok (p, t), v)
      → (s' : m.State) × (r ≡ (p, t))
        × (lib.add_healthz_check "healthz" s ≡ (none, s'))
        × (lib.add_readyz_check "readyz" s' ≡ (none, v))
  check_health-eq-ok r s h = elim (Option-cases (lib.add_healthz_check "healthz" s).0) [
    | inr (x, e) ↦ absurd (ground arith)
    | inl e ↦
        elim (Option-cases
          (lib.add_readyz_check "readyz" (lib.add_healthz_check "healthz" s).1).0) [
            | inr (x, f) ↦ absurd (ground arith)
            | inl f ↦
                ((lib.add_healthz_check "healthz" s).1, ground arith, ground arith, ground arith)
          ]
  ]

  -- Each of the steps has succeeded.
  prepare-eq-ok :
      (f : Flags) (config : lib.Config) (s : m.State) {p t : Built m} {v : m.State}
      → prepare lib upper w f config s ≡ (ok (p, t), v)
      → (s₁ s₂ s₃ : m.State) × (lib.new_manager config (manager_options lib.new_webhook_server f) s
          ≡ (none, s₁))
        × (setup_with_manager upper w s₁ ≡ (ok (p, t), s₂))
        × (lib.add_healthz_check "healthz" s₂ ≡ (none, s₃))
        × (lib.add_readyz_check "readyz" s₃ ≡ (none, v))
  unfolding prepare
  prepare-eq-ok f config s h =
      let start_manager =
        checked no_manager (lib.new_manager config (manager_options lib.new_webhook_server f)) in
      let set_up = wrap no_controller (setup_with_manager upper w) in
      let (_, s₁, e₁, h₁) = >>=-eq-ok start_manager (λ _. set_up >>= check_health) s h in
      let (r, s₂, e, h₂) = >>=-eq-ok set_up check_health s₁ h₁ in
      let (s₃, same, healthy, ready) = check_health-eq-ok r s₂ h₂ in
      (
        s₁,
        s₂,
        s₃,
        checked-eq-ok no_manager (lib.new_manager config (manager_options lib.new_webhook_server f))
            s e₁,
        wrap-eq-ok no_controller (setup_with_manager upper w) s₁ e ∙ ap (λ x. (ok x, s₂)) same,
        healthy,
        ready,
      )

  pub before_start-eq-ok :
      (args : List Text) (s : m.State) {p t : Built m} {v : m.State}
      → before_start args s ≡ (ok (p, t), v)
      → IsReady args v
  before_start-eq-ok args s {p} {t} h =
      let (_, s₁, _, h₁) = >>=-eq-ok (init lib) (λ _. from_flags args) s h in
      let (f, s₂, e₂, h₂) = >>=-eq-ok (read_flags lib args) from_config s₁ h₁ in
      let (c, s₃, e₃, h₃) = >>=-eq-ok (load_config lib) (prepare lib upper w f) s₂ h₂ in
      let (u₁, u₂, u₃, made, set_up, healthy, ready) = prepare-eq-ok f c s₃ h₃ in
      let (cache, plugin_is, theme_is) = setup_with_manager-IsWatch upper w u₁ set_up in
      record {
        flags = f;
        reads = read_flags-eq-ok args s₁ e₂;
        config = c;
        plugin = p;
        theme = t;
        s₀ = s₃;
        s₁ = u₁;
        s₂ = u₂;
        s₃ = u₃;
        made = made;
        set_up = set_up;
        healthy = healthy;
        ready = ready;
        cache = cache;
        plugin_is = plugin_is;
        theme_is = theme_is;
      }
