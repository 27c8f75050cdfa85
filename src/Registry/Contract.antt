-- ===== src/Registry/Contract.antt =====
-- The contract of `RegisterOn` of pkg/dynamicwatch/builder.go.
use dynamic_crd_watch.Base.{ℕ, String, ◌≡◌, true, some}
use dynamic_crd_watch.Base.Failing.{Result}
use dynamic_crd_watch.Builder.{Manager, WatcherBuilder, Built}
use dynamic_crd_watch.Registry.{RegisterError, Setup, register_on}
use dynamic_crd_watch.Registry.Laws.{Outcome, IsWired, register_on-IsWired, register_on-Outcome}

-- What `RegisterOn`, with a registry and a controller builder, does on each outcome. Success: the name
-- was free, and now names the handle's watcher, which uses the registry's CRD cache and has the
-- builder's name; every other name is as it was; and that watcher is the one new source. Failure:
-- the registry and the sources are as they were, and if the name was taken so is the manager.
-- Either way a registry that has each CRD once, and whose watchers are just the controller's
-- sources, stays so.
pub register_on-contract :
    {m : Manager} (upper : ℕ → ℕ) (b : WatcherBuilder m) (s : Setup m) (name : String)
    {r : Result (RegisterError m.Error) (Built m)} {t : Setup m}
    → register_on upper true true b s ≡ some (r, t)
    → IsWired s
    → IsWired t × Outcome upper b s name r t
register_on-contract upper b s name h wired =
    (register_on-IsWired upper b s h wired, register_on-Outcome upper b s name h)
