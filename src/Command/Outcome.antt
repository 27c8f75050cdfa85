-- ===== src/Command/Outcome.antt =====
-- How the command of cmd/main.go ends.
use dynamic_crd_watch.Base.{ℕ, ◌≡◌, ◌≢◌, ◌⊎◌, refl, ap, ◌∙◌, sym, inl, inr, List, arith, Option}
use dynamic_crd_watch.Base.Text.{Text}
use dynamic_crd_watch.Base.Failing.{ok, err, Result-cases, ◌>>=◌, Failing}
use dynamic_crd_watch.Builder.{Manager, Built}
use dynamic_crd_watch.Controller.Setup.{Wiring}
use dynamic_crd_watch.Command.Flags.{help, parse_flags}
use dynamic_crd_watch.Command.Program.{
  Libraries, Ending, stopped, exit_status, checked, init, prepare, process,
}
use dynamic_crd_watch.Command.Stages.{
  IsReady, before_start, run_manager, before_start-eq-ok, process_split,
}
use dynamic_crd_watch.Command.Endings.{before_start-IsEarly}

module _ {m : Manager} (upper : ℕ → ℕ) (w : Wiring m) (lib : Libraries m) where
  -- The steps before `Start` do not use it.
  abbrev changed : (m.State → Option m.Error × m.State) → Libraries m
  changed other = record lib { start = other }

  before_start-changed :
      (other : m.State → Option m.Error × m.State) (args : List Text) (s : m.State)
      → before_start upper w (changed other) args s ≡ before_start upper w lib args s
  unfolding init prepare
  before_start-changed other args s = refl

  stops :
      (l : Libraries m) (args : List Text) (s : m.State) {e : Ending m.Error}
      → (before_start upper w l args s).0 ≡ err e
      → (k : Built m × Built m → Failing m.State (Ending m.Error) (Unit {0}))
      → (before_start upper w l args >>= k) s ≡ (err e, (before_start upper w l args s).1)
  stops l args s h k = ground arith

  -- The command either runs the manager, and is then ready: its flags were read, and from one state
  -- to the next, up to the one in which `Start` is called, the manager was made with the options of
  -- the flags, both watchers were set up on one CRD cache and the checks "healthz" and "readyz"
  -- were added. Or it ends before, with an error other than the manager's and with status 0 only if
  -- help was asked for, and whatever `Start` would do plays no part.
  pub process_outcome :
      (args : List Text) (s : m.State)
      → ((v : m.State) × IsReady upper w lib args v
          × (process lib upper w args s ≡ checked stopped lib.start v))
        ⊎ ((e : Ending m.Error) × ((process lib upper w args s).0 ≡ err e)
            × ((x : m.Error) → e ≢ stopped x)
            × (exit_status e ≡ 0 → parse_flags lib.library_flags lib.settings args ≡ help)
            × ((other : m.State → Option m.Error × m.State)
                → process (record lib { start = other }) upper w args s
                  ≡ process lib upper w args s))
  process_outcome args s = elim (Result-cases (before_start upper w lib args s).0) [
    | inl ((p, t), h) ↦
        let v = (before_start upper w lib args s).1 in
        let whole : before_start upper w lib args s ≡ (ok (p, t), v) = ground arith in
        inl (
          v,
          before_start-eq-ok upper w lib args s whole,
          sym (process_split upper w lib args s) ∙ ground arith,
        )
    | inr (e, h) ↦
        let (other_error, status) = before_start-IsEarly upper w lib args s e h in
        inr (
          e,
          ground (arith, process_split upper w lib args s),
          other_error,
          status,
          λ other.
              let same = before_start-changed other args s in
              sym (process_split upper w (changed other) args s)
              ∙ stops (changed other) args s (ap (λ x. x.0) same ∙ h)
                  (run_manager upper w (changed other))
              ∙ ap (λ x. (err e, x.1)) same
              ∙ sym (stops lib args s h (run_manager upper w lib))
              ∙ process_split upper w lib args s,
        )
  ]
