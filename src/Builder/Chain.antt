-- ===== src/Builder/Chain.antt =====
-- What a chain of calls on a `WatcherBuilder` of pkg/dynamicwatch/builder.go comes to.
use mathlib.Core.List.{append_assoc, append-nil}
use dynamic_crd_watch.Base.{
  ℕ, zero, suc, String, ◌≡◌, refl, ap, sym, ◌∙◌, Bool, true, false, ◌||◌, Option, none, some, List,
  [], ◌∷◌, ◌++◌, if◌then◌else◌,
}
use dynamic_crd_watch.Base.Text.{Text}
use dynamic_crd_watch.Builder.Library.{Manager}
use dynamic_crd_watch.Builder.Options.{
  Duration, pos, negsuc, WatcherBuilder, insert_keys, with_crd_cache, with_event_handler,
  enqueue_for_owner, with_predicates, with_namespaces, enqueue_on_crd_change, with_sync_timeout,
  with_event_recorder, with_condition_type,
}

-- A call with its arguments.
pub data Setting (m : Manager) : Type 0 where
  crd_cache : Option m.Cache → Setting m
  event_handler : Option m.Handler → Setting m
  owner : Option m.Owner → List m.OwnerOption → Setting m
  predicates : List m.Predicate → Setting m
  namespaces : List String → Setting m
  on_crd_change : Option m.Requeue → Setting m
  sync_timeout : Duration → Setting m
  event_recorder : Option m.Recorder → Setting m
  condition_type : Text → Setting m

module _ {m : Manager} where
  abbrev pub apply : Setting m → WatcherBuilder m → Option (WatcherBuilder m)
  apply (crd_cache c) b = with_crd_cache c b
  apply (event_handler h) b = with_event_handler h b
  apply (owner o opts) b = enqueue_for_owner o opts b
  apply (predicates ps) b = some (with_predicates ps b)
  apply (namespaces ns) b = some (with_namespaces ns b)
  apply (on_crd_change fn) b = some (enqueue_on_crd_change fn b)
  apply (sync_timeout d) b = with_sync_timeout d b
  apply (event_recorder r) b = with_event_recorder r b
  apply (condition_type t) b = with_condition_type t b

  abbrev pub chain : List (Setting m) → WatcherBuilder m → Option (WatcherBuilder m)
  chain [] b = some b
  chain (x ∷ xs) b = elim (apply x b) [ none ↦ none | some b' ↦ chain xs b' ]

  -- A nil argument, an empty condition type, or a timeout that is not positive.
  abbrev pub is_misused : Setting m → Bool
  is_misused (crd_cache none) = true
  is_misused (event_handler none) = true
  is_misused (owner none _) = true
  is_misused (sync_timeout (pos zero)) = true
  is_misused (sync_timeout (negsuc _)) = true
  is_misused (event_recorder none) = true
  is_misused (condition_type []) = true
  is_misused _ = false

  abbrev pub some_misused : List (Setting m) → Bool
  some_misused [] = false
  some_misused (x ∷ xs) = is_misused x || some_misused xs

  -- The last of the values that calls of a chain give, or else `a`.
  abbrev pub last : {A : Type 0} → (Setting m → Option A) → List (Setting m) → A → A
  last f [] a = a
  last f (x ∷ xs) a = last f xs (elim (f x) [ none ↦ a | some b ↦ b ])

  abbrev pub given_predicates : List (Setting m) → List m.Predicate
  given_predicates [] = []
  given_predicates (predicates ps ∷ xs) = ps ++ given_predicates xs
  given_predicates (_ ∷ xs) = given_predicates xs

  abbrev pub given_cache : Setting m → Option (Option m.Cache)
  given_cache (crd_cache c) = some c
  given_cache _ = none

  abbrev pub given_handler : Setting m → Option (Option m.Handler)
  given_handler (event_handler h) = some h
  given_handler _ = none

  abbrev pub given_owner : Setting m → Option (Option m.Owner)
  given_owner (owner o _) = some o
  given_owner _ = none

  abbrev pub given_owner_opts : Setting m → Option (List m.OwnerOption)
  given_owner_opts (owner _ opts) = some opts
  given_owner_opts _ = none

  abbrev pub given_namespaces : Setting m → Option (Option (List String))
  given_namespaces (namespaces ns) = some (some (insert_keys ns []))
  given_namespaces _ = none

  abbrev pub given_callback : Setting m → Option (Option m.Requeue)
  given_callback (on_crd_change fn) = some fn
  given_callback _ = none

  abbrev pub given_timeout : Setting m → Option ℕ
  given_timeout (sync_timeout (pos n)) = some n
  given_timeout _ = none

  abbrev pub given_recorder : Setting m → Option (Option m.Recorder)
  given_recorder (event_recorder r) = some r
  given_recorder _ = none

  abbrev pub given_type : Setting m → Option Text
  given_type (condition_type t) = some t
  given_type _ = none

  abbrev pub configured : List (Setting m) → WatcherBuilder m → WatcherBuilder m
  configured xs b = record {
    crd_name = b.crd_name;
    condition_type = last given_type xs b.condition_type;
    crd_cache = last given_cache xs b.crd_cache;
    obj_handler = last given_handler xs b.obj_handler;
    owner_type = last given_owner xs b.owner_type;
    owner_opts = last given_owner_opts xs b.owner_opts;
    predicates = b.predicates ++ given_predicates xs;
    requeue_all = last given_callback xs b.requeue_all;
    default_namespaces = last given_namespaces xs b.default_namespaces;
    sync_timeout = last given_timeout xs b.sync_timeout;
    recorder = last given_recorder xs b.recorder;
  }

  -- A chain of calls on a builder panics exactly if one of them is given a CRD cache, an event handler,
  -- an owner or an event recorder that is nil, an empty condition type or a timeout that is not
  -- positive (a nil callback for changes of the CRD is taken, and refused later by `Build`); else
  -- the builder has, for each option, what the last call gave for it or what was there before, and
  -- all the predicates in order.
  pub chain-configured :
      (xs : List (Setting m)) (b : WatcherBuilder m)
      → chain xs b ≡ (if some_misused xs then none else some (configured xs b))
  unfolding with_crd_cache with_event_handler enqueue_for_owner with_predicates with_namespaces
      enqueue_on_crd_change with_sync_timeout with_event_recorder with_condition_type
  chain-configured [] b =
      ap (λ ps. some (record b { predicates = ps })) (sym (append-nil b.predicates))
  chain-configured (crd_cache none ∷ xs) b = refl
  chain-configured (crd_cache (some c) ∷ xs) b = chain-configured xs _
  chain-configured (event_handler none ∷ xs) b = refl
  chain-configured (event_handler (some h) ∷ xs) b = chain-configured xs _
  chain-configured (owner none opts ∷ xs) b = refl
  chain-configured (owner (some o) opts ∷ xs) b = chain-configured xs _
  chain-configured (predicates ps ∷ xs) b =
      chain-configured xs (with_predicates ps b)
      ∙ ap
          (λ all.
            if some_misused xs then none else some (record (configured xs b) { predicates = all }))
          (append_assoc b.predicates ps (given_predicates xs))
  chain-configured (namespaces ns ∷ xs) b = chain-configured xs _
  chain-configured (on_crd_change fn ∷ xs) b = chain-configured xs _
  chain-configured (sync_timeout (pos zero) ∷ xs) b = refl
  chain-configured (sync_timeout (pos (suc n)) ∷ xs) b = chain-configured xs _
  chain-configured (sync_timeout (negsuc n) ∷ xs) b = refl
  chain-configured (event_recorder none ∷ xs) b = refl
  chain-configured (event_recorder (some r) ∷ xs) b = chain-configured xs _
  chain-configured (condition_type [] ∷ xs) b = refl
  chain-configured (condition_type (c ∷ cs) ∷ xs) b = chain-configured xs _
