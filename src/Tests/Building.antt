-- ===== src/Tests/Building.antt =====
-- Builders over a manager that counts its caches, and instances of the theorems on them.
use dynamic_crd_watch.Base.{
  ℕ, suc, String, ◌≡◌, ◌⊎◌, refl, true, none, some, List, [], ◌∷◌, str_eq, arith, Bool-cases, inl,
  inr, is_some,
}
use dynamic_crd_watch.Condition.{condition}
use dynamic_crd_watch.Base.Failing.{Result, ok, err}
use dynamic_crd_watch.Builder.{
  pos, insert_keys, with_event_recorder, Manager, created, WatcherBuilder, BuildError, Built, build,
  assemble, validate, choose_crd_cache, create_object_cache, choose_handler, validate_crd_name,
}
use dynamic_crd_watch.Builder.Chain.{
  Setting, predicates, sync_timeout, namespaces, event_recorder, chain, chain-configured,
}
use dynamic_crd_watch.Builder.Assembled.{IsBuilt, IsOwn, build_outcome}
use dynamic_crd_watch.Builder.Outcome.{is_complete}
use dynamic_crd_watch.Registry.Laws.{Outcome, IsWired}
use dynamic_crd_watch.Registry.Contract.{register_on-contract}
use dynamic_crd_watch.Registry.{
  Registry, conditions, find, RegisterError, Setup, register_on, has, register,
}
use dynamic_crd_watch.Registry.View.{occurs, IsOrder, bag, conditions-bag}

-- A cache is its number, and every step succeeds.
abbrev pub counting : Manager
counting = record {
  State = ℕ;
  Error = String;
  Cache = ℕ;
  Handler = String;
  Owner = String;
  OwnerOption = String;
  Predicate = String;
  Requeue = String;
  Recorder = String;
  gvk_for_type = none;
  gvk_for_owner = λ o. none;
  new_cache = λ opts s. (created s, suc s);
  add = λ c s. (none, s);
  enqueue_for_owner = λ o opts. "owner";
}

-- Runes beyond ASCII are left alone.
abbrev pub no_upper : ℕ → ℕ
no_upper c = c

abbrev themes : WatcherBuilder counting
themes = record {
  crd_name = "themes.demo.io";
  condition_type = [];
  crd_cache = none;
  obj_handler = some "map";
  owner_type = none;
  owner_opts = [];
  predicates = [];
  requeue_all = some "all";
  default_namespaces = none;
  sync_timeout = 0;
  recorder = none;
}

abbrev unnamed : WatcherBuilder counting
unnamed = record themes { crd_name = "themes" }

-- The watcher with the CRD cache that was made for it, and with a shared one.
abbrev own : Built counting
own = assemble counting no_upper themes "all" 4 5 "map"

builds_own : build counting no_upper themes 4 ≡ (ok own, 6)
unfolding build validate validate_crd_name choose_crd_cache create_object_cache choose_handler
builds_own = refl

abbrev empty : Setup counting
empty = record { manager = 4; registry = record { crd_cache = 3; watchers = [] }; sources = [] }

abbrev enlisted : Built counting
enlisted = assemble counting no_upper (record themes { crd_cache = some 3 }) "all" 3 4 "map"

abbrev one : Setup counting
one = record {
  manager = 5;
  registry = record { crd_cache = 3; watchers = ("themes.demo.io", enlisted) ∷ [] };
  sources = enlisted ∷ [];
}

abbrev success : Result (RegisterError String) (Built counting)
success = ok enlisted

registers : register_on no_upper true true themes empty ≡ some (success, one)
unfolding register_on has register build validate validate_crd_name choose_crd_cache
    create_object_cache choose_handler
registers = refl

-- The last of two timeouts counts, and the predicates add up.
abbrev settings : List (Setting counting)
settings =
    predicates ("labelled" ∷ [])
    ∷ sync_timeout (pos 5)
    ∷ namespaces ("a" ∷ "b" ∷ "a" ∷ [])
    ∷ predicates ("annotated" ∷ [])
    ∷ sync_timeout (pos 9)
    ∷ []

chain-configured_example :
    chain settings themes
    ≡ some (record themes {
      predicates = "labelled" ∷ "annotated" ∷ [];
      default_namespaces = some ("a" ∷ "b" ∷ []);
      sync_timeout = 9;
    })
unfolding insert_keys
chain-configured_example = chain-configured settings themes

chain_panics : chain (event_recorder none ∷ settings) themes ≡ none
unfolding with_event_recorder
chain_panics = refl

abbrev success_own : Result (BuildError String) (Built counting)
success_own = ok own

build_outcome_example :
    ((w : Built counting) × (success_own ≡ ok w)
      × IsBuilt no_upper themes w
      × IsOwn {m = counting} themes w 4 6)
    ⊎ ((e : BuildError String) × (success_own ≡ err e)
        × ((is_complete {m = counting} themes ≡ true) ⊎ (◌≡◌ {A = ℕ} 6 4)))
unfolding build validate validate_crd_name choose_crd_cache create_object_cache choose_handler
build_outcome_example = build_outcome {m = counting} no_upper themes 4

register_on-contract_example : IsWired one × Outcome no_upper themes empty "a.b" success one
register_on-contract_example =
    register_on-contract {m = counting} no_upper themes empty "a.b" registers
      (record { distinct = tt; sources = refl })

-- Two watchers, gone through in the other order.
abbrev in_order : Registry counting
in_order = record {
  crd_cache = 3;
  watchers = ("themes.demo.io", enlisted) ∷ ("plugins.demo.io", own) ∷ [];
}

named :
    (name : String)
    → occurs name ("plugins.demo.io" ∷ "themes.demo.io" ∷ [])
      ≡ is_some (find name in_order.watchers)
unfolding find
named name = elim (Bool-cases (str_eq "themes.demo.io" name)) [
  | inr no_theme ↦ rw no_theme (ground arith)
  | inl theme ↦ rw theme (ground arith)
]

IsOrder-swapped : IsOrder in_order.watchers ("plugins.demo.io" ∷ "themes.demo.io" ∷ [])
IsOrder-swapped = ((refl, (refl, tt)), named)

conditions-bag_example :
    bag (conditions (λ w. w.watcher) in_order)
    ≡ bag (condition own.watcher ∷ condition enlisted.watcher ∷ [])
unfolding find
conditions-bag_example =
    conditions-bag (λ w. w.watcher) in_order ("plugins.demo.io" ∷ "themes.demo.io" ∷ [])
      (refl, (refl, tt)) IsOrder-swapped
