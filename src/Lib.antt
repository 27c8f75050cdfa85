-- ===== src/Lib.antt =====
-- dynamic-crd-watch: controllers whose watches on optional CustomResourceDefinitions come and go.
--
-- pkg/dynamicwatch/watcher.go is the core. A `Watcher[T]` is a source of a controller that follows
-- one CRD: while the CRD is established, the first reconcile that calls `Ensure` registers a watch
-- on its objects, a goroutine waits for the informer and promotes the watcher to active, and reads
-- go through the watcher's private cache; when the CRD goes away the watch is torn down and the
-- affected parents are requeued. builder.go puts a watcher together, registry.go keeps the watchers
-- of one controller, condition.go reports them, and internal/controller/widget_controller.go is a
-- controller that uses two of them, on the Widgets of api/v1alpha1; cmd/main.go runs it in a
-- manager.
--
-- Which file models what:
--   Base, Base/*         shared names, Boolean tests, text as runes, results with a state
--   Crd                  isCRDEstablished, the removal test of onCRDChange, crdNamePredicate and
--                        transformCRDForCache of watcher.go
--   Watcher/Interface    the private cache, the source and RequeueParentsFn, as the record `Runtime`
--   Watcher/State        the struct Watcher, and around it the sync waiters, the ended contexts, the work
--                        queue, the events and the metrics, in one record `World`
--   Watcher/Lifecycle    Start, Ensure, onCRDChange, handleCacheInvalidated, waitForSyncAndRequeue
--   Watcher/Reads        TryGet, TryList, get, list, clearList
--   Watcher/Status       Available, Status
--   System               the CRD handler, the waiters and the readers of one watcher, interleaved
--   Fleet                all watchers of a process, and the metrics of metrics.go that they share
--   Builder/*            WatcherBuilder with its options, validateCRDName and Build of builder.go
--   Registry             NewCRDCache, NewRegistry, has, register, RegisterOn, Conditions
--   Handle               WatchHandle of handle.go and its methods
--   Condition, Condition/Naming   Condition and conditionTypeFromCRDName of condition.go
--   Widget               the types and functions of widget_types.go and widget_lifecycle.go
--   DeepCopy/Types       the types of api/v1alpha1 as they lie in memory, with slices that can share blocks
--   DeepCopy/Slices, Generated, Pointers   zz_generated.deepcopy.go of api/v1alpha1
--   DeepCopy/Snapshot    the copies that Reconcile takes of a Widget
--   Controller/Reconcile Reconcile, reconcilePlugin, reconcileTheme, mergeResults
--   Controller/Reconciler  the struct WidgetReconciler, tryGetPlugin and tryGetTheme
--   Controller/Setup     SetupWithManager, SetupWithManagerUsingRegistry, setupFieldIndexes
--   Controller/Mapping   the field indexes, and the maps from events to requests
--   Command/Flags        the flags of cmd/main.go, with flag.Parse of the standard library
--   Command/Servers      the TLS options, and those of both servers and of the manager
--   Command/Program      init and main of cmd/main.go, and the exit status
--   Tests/*              concrete runs, and an instance of each theorem that has hypotheses
-- The other files hold proofs, under the part they are about: Watcher/Reading, Events, Recovery and
-- Starting on calls in sequence; System/Invariant, Steps, Gauge and Bounds on what every step
-- keeps, System/Safety, Staleness, Refinement, Race, Wakeups, Requeues, Liveness (with Cases and
-- Runs), Rest (with Work and Quiescence), Settling and Converging on whole runs; Fleet/Projection,
-- Written, Counted, Metered and Reported on the watchers beside each other and their metrics;
-- Builder/Names, Chain, Outcome and Assembled, Registry/Laws, Contract and View, Handle/Sharing,
-- Condition/Laws and Collisions, Crd/Laws, Widget/Laws; Controller/Results, Plugins, Themes,
-- Outcome, Dispatch, Parents, Wired, Enrolled, Succeeds, and Following, which joins the controller
-- with its watchers; Command/Printed, Protocols, Stages, Endings, Outcome and Serves;
-- DeepCopy/Copier says what a deep copy promises, and DeepCopy/Elements, Blocks, Fields, Arenas,
-- Deep and Separate are about those of the API.
--
-- How the code corresponds. A method on the watcher is a function on the state; a method that
-- leaves the lock in the middle is cut there, and the parts are composed for a call with nothing in
-- between (`on_crd_change`, `wait_for_sync_and_requeue`) and are steps of their own in System,
-- where any goroutine can run between two of them. A context that is cancelled is a mark on its
-- waiter. The metrics that a watcher has written are in its state, and Fleet has their series as
-- the watchers of a process share them: a step of a watcher writes there what it did to that state.
-- `Reconcile` is written over the two reads `tryGetPlugin` and `tryGetTheme`: of the reconciler's
-- pointers and handles, or of two watchers that are given themselves, and Dispatch has that these
-- agree. The private cache with the cluster behind it is an unknown state `Outside`, of which the
-- model uses what controller-runtime documents: `RemoveInformer` leaves no informer, and a read
-- with no informer, and no other read, fails with ErrResourceNotCached. An informer is lost only
-- through the watcher itself. A panic is `none` or a constructor of the result. The API server, the
-- client's indexed list, the functions of the package meta, the manager with its caches, the flags
-- of zap, and the copies of the types of meta/v1 are parameters in the same way. Only the deep
-- copies look at aliasing: elsewhere a Widget is its value, and `original` in reconcile_widget is
-- what the snapshots read as.
--
-- Bounds and fuel. The generation is a uint64 with its wrap-around; the theorems on runs are about
-- fewer than 2 ^ 64 steps, within which it cannot wrap, but for the one that counts it.
-- `toPascalCase` is recursion on fuel, the length of the text, of which every call of itself uses
-- up at least one rune. The other functions are structural.
--
-- Not modelled: the shutdown (the lifecycle context of a watcher is never cancelled, so that a wait
-- for a sync ends with the sync or with an error; controller-runtime may let it return without an
-- error once its context is cancelled), the CRD cache that RegisterOn leaves in the caller's
-- builder (a later use of that builder is a call with the option set), logging, the texts of errors
-- and of events, newInstance (reflection), the read-write lock of the registry, which is used by
-- one goroutine, groupversion_info.go (declarations), the help texts of the metrics, and test
-- support. Times of conditions are left out.
mod Base
pub mod Crd
pub mod Watcher
pub mod Condition
pub mod System
pub mod Builder
pub mod Registry
pub mod Fleet
pub mod Handle
pub mod Widget
pub mod DeepCopy
pub mod Controller
pub mod Command
mod Tests
