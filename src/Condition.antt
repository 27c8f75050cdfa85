-- ===== src/Condition.antt =====
-- pkg/dynamicwatch/condition.go: the status condition of a watcher, and its type, which is derived
-- from the CRD's name.
pub mod Naming
pub mod Laws
pub mod Collisions
use Prim.Native.String
use dynamic_crd_watch.Watcher
use dynamic_crd_watch.Base.{
  ℕ, String, ◌≡◌, Bool, true, false, Option, none, some, List, [], ◌∷◌, if◌then◌else◌,
}
use dynamic_crd_watch.Base.Text.{Text}
use dynamic_crd_watch.Watcher.{
  Watcher, WatcherReason, ready, not_started, crd_not_found, syncing, pending, WatcherStatus,
  status,
}

-- `metav1.ConditionStatus`
pub data ConditionStatus : Type 0 where
  condition_true condition_false condition_unknown : ConditionStatus

-- `metav1.Condition`, with the fields that the program sets; the type by its runes.
pub record Condition : Type 0 where
  pub type : Text
  pub status : ConditionStatus
  pub reason : String
  pub message : String
  pub observed_generation : ℕ

abbrev pub reason_text : WatcherReason → String
reason_text ready = "Ready"
reason_text not_started = "NotStarted"
reason_text crd_not_found = "CRDNotFound"
reason_text syncing = "Syncing"
reason_text pending = "Pending"

infixr 65 ◌+++◌
abbrev ◌+++◌ : String → String → String
s +++ t = String.◌++◌ s t

unfoldable pub condition_message : String → WatcherReason → String
condition_message crd_name crd_not_found = "CRD " +++ crd_name +++ " is not installed"
condition_message crd_name syncing = "Watch for " +++ crd_name +++ " is syncing"
condition_message crd_name pending = "Watch for " +++ crd_name +++ " is pending registration"
condition_message crd_name not_started = "Watcher for " +++ crd_name +++ " has not started"
condition_message crd_name reason =
    "Watch for " +++ crd_name +++ " is in state " +++ reason_text reason

-- `Watcher.Condition`: a status is True just where `status` is true.
unfoldable pub condition : Watcher → Condition
unfolding condition_message
condition w =
    let s = Watcher.status w in
    record {
      type = w.condition_type;
      status = if s.available then condition_true else condition_false;
      reason = reason_text s.reason;
      message =
          if s.available
          then "Watch for " +++ w.crd_name +++ " is active"
          else condition_message w.crd_name s.reason;
      observed_generation = 0;
    }
