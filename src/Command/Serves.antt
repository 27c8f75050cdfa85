-- ===== src/Command/Serves.antt =====
-- When the command of cmd/main.go runs the manager until it stops.
use dynamic_crd_watch.Base.{ℕ, String, ◌≡◌, sym, ◌∙◌, none, some, arith}
use dynamic_crd_watch.Base.Failing.{ok, ◌>>=◌, >>=_ok}
use dynamic_crd_watch.Builder.{Manager, Built}
use dynamic_crd_watch.Controller.Setup.{Wiring, wrap, setup_with_manager}
use dynamic_crd_watch.Controller.Succeeds.{IsFine, wrap_ok, setup_with_manager_total}
use dynamic_crd_watch.Command.Flags.{Flags}
use dynamic_crd_watch.Command.Servers.{ManagerOptions, manager_options}
use dynamic_crd_watch.Command.Program.{
  Libraries, Api, client_go, api_extensions, demo, no_manager, no_controller, checked, init,
  read_flags, load_config, prepare, process,
}
use dynamic_crd_watch.Command.Printed.{print_flags, parse_flags-print_flags}
use dynamic_crd_watch.Command.Stages.{
  IsReady, before_start-eq-ok, from_config, from_flags, before_start, check_health, process_split,
}

-- The calls of the libraries, all of them successful in every state.
pub record AllSucceed {m : Manager} (lib : Libraries m) : Type 0 where
  pub known : (api : Api) (s : m.State) → (lib.add_to_scheme api s).0 ≡ none
  pub configured : (s : m.State) → (c : lib.Config) × ((lib.get_config s).0 ≡ some c)
  pub made :
      (c : lib.Config) (o : ManagerOptions lib.Server) (s : m.State)
      → (lib.new_manager c o s).0 ≡ none
  pub healthy : (name : String) (s : m.State) → (lib.add_healthz_check name s).0 ≡ none
  pub ready : (name : String) (s : m.State) → (lib.add_readyz_check name s).0 ≡ none
  pub runs : (s : m.State) → (lib.start s).0 ≡ none

module _ {m : Manager} (upper : ℕ → ℕ) (w : Wiring m) (lib : Libraries m) (fine : IsFine w)
    (good : AllSucceed lib) where
  init_ok : (s : m.State) → (init lib s).0 ≡ ok tt
  unfolding init
  init_ok s =
      let s₁ = (lib.add_to_scheme client_go s).1 in
      let s₂ = (lib.add_to_scheme api_extensions s₁).1 in
      ground (arith, good.known client_go s, good.known api_extensions s₁, good.known demo s₂)

  check_health_ok : (r : Built m × Built m) (s : m.State) → (check_health upper w lib r s).0 ≡ ok r
  check_health_ok r s =
      ground
        (arith, good.healthy "healthz" s, good.ready "readyz" (lib.add_healthz_check "healthz" s).1)

  prepare_ok :
      (f : Flags) (c : lib.Config) (s : m.State)
      → (p t : Built m) × ((prepare lib upper w f c s).0 ≡ ok (p, t))
  unfolding prepare
  prepare_ok f c s =
      let make =
        checked no_manager (lib.new_manager c (manager_options lib.new_webhook_server f)) in
      let set_up = wrap no_controller (setup_with_manager upper w) in
      let s₁ : m.State = (make s).1 in
      let s₂ : m.State = (set_up s₁).1 in
      let (p, t, e) = setup_with_manager_total upper w fine s₁ in
      let made = good.made c (manager_options lib.new_webhook_server f) s in
      let second =
        >>=_ok set_up (check_health upper w lib) s₁ (p, t) (p, t)
          (wrap_ok no_controller (setup_with_manager upper w) s₁ (p, t) e)
          (check_health_ok (p, t) s₂) in
      (
        p,
        t,
        >>=_ok make (λ _. set_up >>= check_health upper w lib) s tt (p, t) (ground arith) second,
      )

  read_ok : (f : Flags) (s : m.State) → (read_flags lib (print_flags f) s).0 ≡ ok f
  read_ok f s = ground (arith, parse_flags-print_flags lib.library_flags lib.settings f)

  -- Wherever the calls of the libraries succeed, the command, given the arguments that print any flags,
  -- makes the manager, sets up both watchers and adds both checks, and then runs the manager: it
  -- returns without an error, in the state in which `Start` leaves the manager.
  pub process_serves :
      (f : Flags) (s : m.State)
      → (v : m.State) × IsReady upper w lib (print_flags f) v
        × (process lib upper w (print_flags f) s ≡ (ok tt, (lib.start v).1))
  process_serves f s =
      let args = print_flags f in
      let s₁ : m.State = (init lib s).1 in
      let s₂ : m.State = (read_flags lib args s₁).1 in
      let (c, e) = good.configured s₂ in
      let s₃ : m.State = (load_config lib s₂).1 in
      let (p, t, e₃) = prepare_ok f c s₃ in
      let third = >>=_ok (load_config lib) (prepare lib upper w f) s₂ c (p, t) (ground arith) e₃ in
      let second =
        >>=_ok (read_flags lib args) (from_config upper w lib) s₁ f (p, t) (read_ok f s₁) third in
      let first =
        >>=_ok (init lib) (λ _. from_flags upper w lib args) s tt (p, t) (init_ok s) second in
      let v : m.State = (before_start upper w lib args s).1 in
      let whole : before_start upper w lib args s ≡ (ok (p, t), v) =
        λ i. (first i, (before_start upper w lib args s).1) in
      (
        v,
        before_start-eq-ok upper w lib args s whole,
        sym (process_split upper w lib args s) ∙ ground (arith, first, good.runs v),
      )
