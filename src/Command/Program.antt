-- ===== src/Command/Program.antt =====
-- cmd/main.go: `init` and `main`, with the calls of the libraries as a parameter.
use dynamic_crd_watch.Base.{ℕ, String, Option, none, some, List}
use dynamic_crd_watch.Base.Text.{Text}
use dynamic_crd_watch.Base.Failing.{ok, err, Failing, ◌>>=◌, ◌>>◌, return, throw}
use dynamic_crd_watch.Builder.{Manager, Built}
use dynamic_crd_watch.Controller.Setup.{Wiring, SetupError, panicked, wrap, setup_with_manager}
use dynamic_crd_watch.Command.Flags.{Flags, FlagSet, parsed, help, bad_usage, parse_flags}
use dynamic_crd_watch.Command.Servers.{WebhookOptions, ManagerOptions, manager_options}

-- The APIs whose types `init` adds to the scheme.
pub data Api : Type 0 where
  client_go api_extensions demo : Api

-- What the command calls of the libraries, over the state of the manager: the flags that they
-- register, `AddToScheme`, `GetConfigOrDie` (with `none` where it dies), `webhook.NewServer`,
-- `NewManager`, `AddHealthzCheck` and `AddReadyzCheck` with `healthz.Ping`, and `Start`, which
-- returns when the manager stops.
pub record Libraries (m : Manager) : Type 1 where
  pub Settings : Type 0
  pub Config : Type 0
  pub Server : Type 0
  pub library_flags : FlagSet Settings
  pub settings : Settings
  pub add_to_scheme : Api → m.State → Option m.Error × m.State
  pub get_config : m.State → Option Config × m.State
  pub new_webhook_server : WebhookOptions → Server
  pub new_manager : Config → ManagerOptions Server → m.State → Option m.Error × m.State
  pub add_healthz_check : String → m.State → Option m.Error × m.State
  pub add_readyz_check : String → m.State → Option m.Error × m.State
  pub start : m.State → Option m.Error × m.State

-- How the command ends other than by the return of `main`.
pub data Ending (Error : Type 0) : Type 0 where
  not_in_scheme : Api → Error → Ending Error
  help_asked : Ending Error
  misused : Ending Error
  no_config : Ending Error
  no_manager : Error → Ending Error
  no_controller : SetupError Error → Ending Error
  no_health_check : Error → Ending Error
  no_ready_check : Error → Ending Error
  stopped : Error → Ending Error

-- The status of the process: `flag` exits with 0 or 2, a panic with 2, and `main` with 1.
unfoldable pub exit_status : {Error : Type 0} → Ending Error → ℕ
exit_status (not_in_scheme _ _) = 2
exit_status help_asked = 0
exit_status misused = 2
exit_status (no_controller panicked) = 2
exit_status _ = 1

abbrev pub checked :
    {State Error E : Type 0}
    → (Error → E)
    → (State → Option Error × State)
    → Failing State E (Unit {0})
checked f c s =
    let (failure, t) = c s in elim failure [ none ↦ (ok tt, t) | some e ↦ (err (f e), t) ]

module _ {m : Manager} (lib : Libraries m) where
  unfoldable pub init : Failing m.State (Ending m.Error) (Unit {0})
  init = do
    checked (not_in_scheme client_go) (lib.add_to_scheme client_go)
    checked (not_in_scheme api_extensions) (lib.add_to_scheme api_extensions)
    checked (not_in_scheme demo) (lib.add_to_scheme demo)

  abbrev pub read_flags : List Text → Failing m.State (Ending m.Error) Flags
  read_flags args = elim (parse_flags lib.library_flags lib.settings args) [
    | parsed s ↦ return s.0
    | help ↦ throw help_asked
    | bad_usage ↦ throw misused
  ]

  abbrev pub load_config : Failing m.State (Ending m.Error) lib.Config
  load_config s =
      let (config, t) = lib.get_config s in
      elim config [ none ↦ (err no_config, t) | some c ↦ (ok c, t) ]

  -- `main` from `NewManager` up to `Start`; `upper` and `w` belong to the set-up of the controller.
  unfoldable pub prepare :
      (ℕ → ℕ) → Wiring m → Flags → lib.Config → Failing m.State (Ending m.Error) (Built m × Built m)
  prepare upper w flags config = do
    checked no_manager (lib.new_manager config (manager_options lib.new_webhook_server flags))
    watchers ← wrap no_controller (setup_with_manager upper w)
    checked no_health_check (lib.add_healthz_check "healthz")
    checked no_ready_check (lib.add_readyz_check "readyz")
    return watchers

  unfoldable pub main : (ℕ → ℕ) → Wiring m → List Text → Failing m.State (Ending m.Error) (Unit {0})
  unfolding prepare
  main upper w args = do
    flags ← read_flags args
    config ← load_config
    _ ← prepare upper w flags config
    checked stopped lib.start

  -- The process: `init` runs before `main`.
  unfoldable pub process :
      (ℕ → ℕ) → Wiring m → List Text → Failing m.State (Ending m.Error) (Unit {0})
  unfolding init main
  process upper w args = do init; main upper w args
