-- ===== src/Tests/Commanding.antt =====
-- The command over the manager that counts its caches.
use dynamic_crd_watch.Base.{
  ◌≡◌, ◌≢◌, ◌⊎◌, refl, true, Option, none, some, [], ◌∷◌, codes, String, ℕ,
}
use dynamic_crd_watch.Base.Text.{Text}
use dynamic_crd_watch.Base.Failing.{ok, err}
use dynamic_crd_watch.Command.Flags.{
  Flags, default_flags, string_var, FlagSet, parsed, help, bad_usage, parse_flags,
}
use dynamic_crd_watch.Command.Servers.{WebhookOptions, manager_options}
use dynamic_crd_watch.Command.Program.{Libraries, Ending, stopped, exit_status, checked, process}
use dynamic_crd_watch.Command.Printed.{print_flags, parse_flags-print_flags}
use dynamic_crd_watch.Command.Protocols.{IsServed, manager_options-IsServed}
use dynamic_crd_watch.Command.Stages.{IsReady}
use dynamic_crd_watch.Command.Outcome.{process_outcome}
use dynamic_crd_watch.Command.Serves.{AllSucceed, process_serves}
use dynamic_crd_watch.Tests.Building.{counting, no_upper}
use dynamic_crd_watch.Tests.Wiring.{wiring, wiring-IsFine}

abbrev zap_flags : FlagSet Text
zap_flags = (codes "zap-log-level", string_var (λ v s. v)) ∷ []

abbrev calm : Libraries counting
calm = record {
  Settings = Text;
  Config = String;
  Server = WebhookOptions;
  library_flags = zap_flags;
  settings = codes "info";
  add_to_scheme = λ api s. (none, s);
  get_config = λ s. (some "in-cluster", s);
  new_webhook_server = λ o. o;
  new_manager = λ c o s. (none, s);
  add_healthz_check = λ name s. (none, s);
  add_readyz_check = λ name s. (none, s);
  start = λ s. (none, s);
}

calm-AllSucceed : AllSucceed calm
calm-AllSucceed = record {
  known = λ api s. refl;
  configured = λ s. ("in-cluster", refl);
  made = λ c o s. refl;
  healthy = λ name s. refl;
  ready = λ name s. refl;
  runs = λ s. refl;
}

abbrev given : Flags
given = record default_flags {
  metrics_addr = codes ":8443";
  metrics_cert_path = codes "/certs";
  enable_http2 = true;
}

mixes_forms :
    parse_flags zap_flags (codes "info") (
      codes "-metrics-bind-address"
      ∷ codes ":8443"
      ∷ codes "--enable-http2"
      ∷ codes "--metrics-cert-path=/certs"
      ∷ codes "--zap-log-level=debug"
      ∷ codes "--"
      ∷ codes "--leader-elect"
      ∷ [])
    ≡ parsed (given, codes "debug")
unfolding parse_flags
mixes_forms = refl

asks_help : parse_flags zap_flags [] (codes "--leader-elect" ∷ codes "-h" ∷ []) ≡ help
unfolding parse_flags
asks_help = refl

refuses_value : parse_flags zap_flags [] (codes "--leader-elect=maybe" ∷ []) ≡ bad_usage
unfolding parse_flags
refuses_value = refl

lacks_value : parse_flags zap_flags [] (codes "--webhook-cert-path" ∷ []) ≡ bad_usage
unfolding parse_flags
lacks_value = refl

parse_flags-print_flags_example : parse_flags zap_flags [] (print_flags given) ≡ parsed (given, [])
parse_flags-print_flags_example = parse_flags-print_flags zap_flags [] given

manager_options-IsServed_example :
    (v : WebhookOptions) × ((manager_options (λ o. o) given).webhook_server ≡ v)
    × IsServed given (manager_options (λ o. o) given) v
manager_options-IsServed_example = manager_options-IsServed (λ o. o) given

process_outcome_example :
    ((v : ℕ) × IsReady no_upper wiring calm (codes "-h" ∷ []) v
      × (process calm no_upper wiring (codes "-h" ∷ []) 0 ≡ checked stopped calm.start v))
    ⊎ ((e : Ending String) × ((process calm no_upper wiring (codes "-h" ∷ []) 0).0 ≡ err e)
        × ((x : String) → e ≢ stopped x)
        × (exit_status e ≡ 0 → parse_flags zap_flags (codes "info") (codes "-h" ∷ []) ≡ help)
        × ((other : ℕ → Option String × ℕ)
            → process (record calm { start = other }) no_upper wiring (codes "-h" ∷ []) 0
              ≡ process calm no_upper wiring (codes "-h" ∷ []) 0))
process_outcome_example = process_outcome no_upper wiring calm (codes "-h" ∷ []) 0

process_serves_example :
    (v : ℕ) × IsReady no_upper wiring calm (print_flags given) v
    × (process calm no_upper wiring (print_flags given) 0 ≡ (ok tt, (calm.start v).1))
process_serves_example = process_serves no_upper wiring calm wiring-IsFine calm-AllSucceed given 0
