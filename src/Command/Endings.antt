-- ===== src/Command/Endings.antt =====
-- How the command of cmd/main.go ends before `Start`.
use mathlib.Core.Path.{subst}
use dynamic_crd_watch.Base.{ℕ, ◌≡◌, ◌≢◌, inl, inr, Option, List, arith, Option-cases}
use dynamic_crd_watch.Base.Text.{Text}
use dynamic_crd_watch.Base.Failing.{◌>>=◌, ◌>>◌, return, FailsWith, >>=-FailsWith, Result-cases}
use dynamic_crd_watch.Builder.{Manager, Built}
use dynamic_crd_watch.Controller.Setup.{Wiring, SetupError, wrap, setup_with_manager}
use dynamic_crd_watch.Command.Flags.{Flags, help, parse_flags}
use dynamic_crd_watch.Command.Servers.{manager_options}
use dynamic_crd_watch.Command.Program.{
  Libraries, Ending, no_controller, no_manager, no_health_check, no_ready_check, stopped,
  exit_status, checked, Api, client_go, api_extensions, demo, not_in_scheme, init, read_flags,
  load_config, prepare,
}
use dynamic_crd_watch.Command.Stages.{
  Parsed-cases, from_config, from_flags, before_start, check_health,
}

no_controller-exit_status :
    {Error : Type 0} (x : SetupError Error) → exit_status (no_controller x) ≢ 0
unfolding exit_status
no_controller-exit_status (SetupError.creating_crd_cache x) = ground arith
no_controller-exit_status (SetupError.creating_registry x) = ground arith
no_controller-exit_status (SetupError.plugin_watch x) = ground arith
no_controller-exit_status (SetupError.theme_watch x) = ground arith
no_controller-exit_status (SetupError.registering_plugin x) = ground arith
no_controller-exit_status (SetupError.registering_theme x) = ground arith
no_controller-exit_status (SetupError.indexing field x) = ground arith
no_controller-exit_status (SetupError.completing x) = ground arith
no_controller-exit_status SetupError.panicked = ground arith

module _ {m : Manager} (upper : ℕ → ℕ) (w : Wiring m) (lib : Libraries m) where
  -- An ending before `Start`: its status is 0 only if the arguments ask for help.
  abbrev pub IsEarly : List Text → Ending m.Error → Type 0
  IsEarly args e =
      ((x : m.Error) → e ≢ stopped x)
      × (exit_status e ≡ 0 → parse_flags lib.library_flags lib.settings args ≡ help)

  module _ (args : List Text) where
    checked-IsEarly :
        (f : m.Error → Ending m.Error) (c : m.State → Option m.Error × m.State)
        → ((x : m.Error) → IsEarly args (f x))
        → FailsWith (IsEarly args) (checked f c)
    checked-IsEarly f c early s e h = elim (Option-cases (c s).0) [
      | inl g ↦ absurd (ground arith)
      | inr (x, g) ↦ subst (IsEarly args) (ground arith) (early x)
    ]

    add-IsEarly :
        (api : Api) → FailsWith (IsEarly args) (checked (not_in_scheme api) (lib.add_to_scheme api))
    unfolding exit_status
    add-IsEarly api =
        checked-IsEarly (not_in_scheme api) (lib.add_to_scheme api) (λ x. ground arith)

    init-IsEarly : FailsWith (IsEarly args) (init lib)
    unfolding init
    init-IsEarly =
        >>=-FailsWith (IsEarly args)
          (checked (not_in_scheme client_go) (lib.add_to_scheme client_go))
          (λ _.
            checked (not_in_scheme api_extensions) (lib.add_to_scheme api_extensions)
            >> checked (not_in_scheme demo) (lib.add_to_scheme demo))
          (add-IsEarly client_go)
          (λ _.
            >>=-FailsWith (IsEarly args)
              (checked (not_in_scheme api_extensions) (lib.add_to_scheme api_extensions))
              (λ _. checked (not_in_scheme demo) (lib.add_to_scheme demo))
              (add-IsEarly api_extensions) (λ _. add-IsEarly demo))

    read_flags-IsEarly : FailsWith (IsEarly args) (read_flags lib args)
    unfolding exit_status
    read_flags-IsEarly s e h =
        elim (Parsed-cases (parse_flags lib.library_flags lib.settings args)) [
          | inl ((f', z), g) ↦ absurd (ground arith)
          | inr (inl g) ↦ ground arith
          | inr (inr g) ↦ ground arith
        ]

    load_config-IsEarly : FailsWith (IsEarly args) (load_config lib)
    unfolding exit_status
    load_config-IsEarly s e h = elim (Option-cases (lib.get_config s).0) [
      | inl g ↦ ground arith
      | inr (c, g) ↦ absurd (ground arith)
    ]

    set_up-IsEarly : FailsWith (IsEarly args) (wrap no_controller (setup_with_manager upper w))
    set_up-IsEarly s e h = elim (Result-cases (setup_with_manager upper w s).0) [
      | inl (a, g) ↦ absurd (ground arith)
      | inr (x, g) ↦
          subst (IsEarly args) {x = no_controller x} (ground arith)
            (ground (arith, no_controller-exit_status x))
    ]

    check_health-IsEarly :
        (r : Built m × Built m) → FailsWith (IsEarly args) (check_health upper w lib r)
    unfolding exit_status
    check_health-IsEarly r =
        >>=-FailsWith (IsEarly args) (checked no_health_check (lib.add_healthz_check "healthz"))
          (λ _. checked no_ready_check (lib.add_readyz_check "readyz") >> return r)
          (checked-IsEarly no_health_check (lib.add_healthz_check "healthz") (λ x. ground arith))
          (λ _.
            >>=-FailsWith (IsEarly args) (checked no_ready_check (lib.add_readyz_check "readyz"))
              (λ _. return r)
              (checked-IsEarly no_ready_check (lib.add_readyz_check "readyz") (λ x. ground arith))
              (λ _ s e h. absurd (ground arith)))

    prepare-IsEarly :
        (f : Flags) (config : lib.Config) → FailsWith (IsEarly args) (prepare lib upper w f config)
    unfolding prepare exit_status
    prepare-IsEarly f config =
        let start_manager = lib.new_manager config (manager_options lib.new_webhook_server f) in
        let set_up = wrap no_controller (setup_with_manager upper w) in
        >>=-FailsWith (IsEarly args) (checked no_manager start_manager)
          (λ _. set_up >>= check_health upper w lib)
          (checked-IsEarly no_manager start_manager (λ x. ground arith))
          (λ _.
            >>=-FailsWith (IsEarly args) set_up (check_health upper w lib) set_up-IsEarly
              check_health-IsEarly)

    pub before_start-IsEarly : FailsWith (IsEarly args) (before_start upper w lib args)
    before_start-IsEarly =
        >>=-FailsWith (IsEarly args) (init lib) (λ _. from_flags upper w lib args) init-IsEarly
          (λ _.
            >>=-FailsWith (IsEarly args) (read_flags lib args) (from_config upper w lib)
              read_flags-IsEarly
              (λ f.
                >>=-FailsWith (IsEarly args) (load_config lib) (prepare lib upper w f)
                  load_config-IsEarly (prepare-IsEarly f)))
