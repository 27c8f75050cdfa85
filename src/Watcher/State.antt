-- ===== src/Watcher/State.antt =====
-- pkg/dynamicwatch/watcher.go: the fields of `Watcher[T]`, and what its methods change around them:
-- the sync waiters (goroutines), their contexts, the work queue, the Kubernetes events and the
-- metrics of pkg/dynamicwatch/metrics.go.
use dynamic_crd_watch.Base.{ℕ, ◌+◌, ◌%◌, ◌^◌, String, Bool, false, Option, none, List, []}
use dynamic_crd_watch.Base.Text.{Text}
use dynamic_crd_watch.Watcher.Interface.{Request, Runtime}

pub data WatcherReason : Type 0 where
  ready not_started crd_not_found syncing pending : WatcherReason

pub record WatcherStatus : Type 0 where
  pub available : Bool
  pub reason : WatcherReason

-- `crd_src` is whether `crdSrc` is set; `cancel_sync_waiter` is the number of the waiter whose
-- context the stored cancel function ends; `generation` is a uint64.
pub record Watcher : Type 0 where
  pub crd_name : String
  pub condition_type : Text
  pub recorder : Bool
  pub started : Bool
  pub crd_src : Bool
  pub watching : Bool
  pub active : Bool
  pub crd_exists : Bool
  pub generation : ℕ
  pub cancel_sync_waiter : Option ℕ

-- `w.generation++` on a uint64.
abbrev pub next_generation : ℕ → ℕ
next_generation g = (g + 1) % 2 ^ 64

-- Where a goroutine of `waitForSyncAndRequeue` stands, with its generation or its error: in
-- `WaitForSync`, after it (before the lock is taken), before the clean-up after a failure, before
-- the requeue after a success, and at its end.
pub data Waiter (Error : Type 0) : Type 0 where
  unused : Waiter Error
  waiting : ℕ → Waiter Error
  returned : ℕ → Option Error → Waiter Error
  cleaning : Error → Waiter Error
  announcing : Waiter Error
  done : Waiter Error

pub data Event : Type 0 where
  watch_activated watch_deactivated watch_sync_failed : Event

pub data Transition : Type 0 where
  activated deactivated invalidated sync_failed : Transition

-- `added` are the requests given to the work queue, oldest first; `gauge` is the value of
-- `dynamicwatch_active` for this CRD and `transitions` are the increments of
-- `dynamicwatch_state_transitions_total`, newest first; `cancelled` marks the contexts that ended.
pub record World (rt : Runtime) : Type 0 where
  pub watcher : Watcher
  pub open watcher use *
  pub outside : rt.Outside
  pub waiters : ℕ → Waiter rt.Error
  pub next_waiter : ℕ
  pub cancelled : ℕ → Bool
  pub added : List Request
  pub recorded : List Event
  pub gauge : Bool
  pub transitions : List Transition

-- The watcher that `Build` returns, before anything has run.
abbrev pub new_watcher : String → Text → Bool → Watcher
new_watcher crd_name condition_type recorder = record {
  crd_name = crd_name;
  condition_type = condition_type;
  recorder = recorder;
  started = false;
  crd_src = false;
  watching = false;
  active = false;
  crd_exists = false;
  generation = 0;
  cancel_sync_waiter = none;
}

abbrev pub new_world : (rt : Runtime) → Watcher → rt.Outside → World rt
new_world rt watcher outside = record {
  watcher = watcher;
  outside = outside;
  waiters = λ _. unused;
  next_waiter = 0;
  cancelled = λ _. false;
  added = [];
  recorded = [];
  gauge = false;
  transitions = [];
}
