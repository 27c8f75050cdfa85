-- ===== src/Command/Printed.antt =====
-- The arguments that give the flags of cmd/main.go their values.
use dynamic_crd_watch.Base.{◌≡◌, refl, Bool, true, false, List, [], ◌∷◌, ◌++◌, codes, if◌then◌else◌}
use dynamic_crd_watch.Base.Text.{Text}
use dynamic_crd_watch.Command.Flags.{Flags, FlagSet, parsed, parse_flags}

abbrev pub show_bool : Bool → Text
show_bool b = if b then codes "true" else codes "false"

-- One argument `--name=value` for each flag.
unfoldable pub print_flags : Flags → List Text
print_flags f =
    (codes "--metrics-bind-address=" ++ f.metrics_addr)
    ∷ (codes "--health-probe-bind-address=" ++ f.probe_addr)
    ∷ (codes "--leader-elect=" ++ show_bool f.enable_leader_election)
    ∷ (codes "--metrics-secure=" ++ show_bool f.secure_metrics)
    ∷ (codes "--webhook-cert-path=" ++ f.webhook_cert_path)
    ∷ (codes "--webhook-cert-name=" ++ f.webhook_cert_name)
    ∷ (codes "--webhook-cert-key=" ++ f.webhook_cert_key)
    ∷ (codes "--metrics-cert-path=" ++ f.metrics_cert_path)
    ∷ (codes "--metrics-cert-name=" ++ f.metrics_cert_name)
    ∷ (codes "--metrics-cert-key=" ++ f.metrics_cert_key)
    ∷ (codes "--enable-http2=" ++ show_bool f.enable_http2)
    ∷ []

module _ {Z : Type 0} (library_flags : FlagSet Z) (z : Z) where
  -- By the values of the flags that are Booleans.
  print_cases :
      (elect secure http2 : Bool) (f : Flags)
      → let g : Flags = record f {
        enable_leader_election = elect;
        secure_metrics = secure;
        enable_http2 = http2;
      } in
        parse_flags library_flags z (print_flags g) ≡ parsed (g, z)
  unfolding parse_flags print_flags
  print_cases true true true f = refl
  print_cases true true false f = refl
  print_cases true false true f = refl
  print_cases true false false f = refl
  print_cases false true true f = refl
  print_cases false true false f = refl
  print_cases false false true f = refl
  print_cases false false false f = refl

  -- Every value of the flags can be given on the command line: the arguments that print it are read
  -- back as it, whatever flags the libraries add.
  pub parse_flags-print_flags :
      (f : Flags) → parse_flags library_flags z (print_flags f) ≡ parsed (f, z)
  parse_flags-print_flags f = print_cases f.enable_leader_election f.secure_metrics f.enable_http2 f
