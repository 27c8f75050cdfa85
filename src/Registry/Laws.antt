-- ===== src/Registry/Laws.antt =====
-- A registry of pkg/dynamicwatch/registry.go has each CRD at most once, and the controller watches just
-- what is registered.
use mathlib.Core.Path.{subst}
use dynamic_crd_watch.Base.{
  sym, ◌∙◌, ℕ, String, ◌≡◌, refl, ap, inl, inr, ◌⊎◌, true, false, none, some, List, [], ◌∷◌, map,
  str_eq, is_some, if◌then◌else◌, arith, Option-cases,
}
use dynamic_crd_watch.Base.Failing.{Result, ok, err, Result-cases}
use dynamic_crd_watch.Builder.{Manager, WatcherBuilder, Built, build}
use dynamic_crd_watch.Builder.Assembled.{IsBuilt, build-IsBuilt}
use dynamic_crd_watch.Registry.{
  find, has, register, RegisterError, already_registered, building, Setup, register_on,
}

-- No name stands twice.
abbrev pub AllDistinct : {V : Type 0} → List (String × V) → Type 0
AllDistinct [] = Unit
AllDistinct ((k, v) ∷ rest) = (find k rest ≡ none) × AllDistinct rest

-- Each CRD is registered once, and the controller was given each registered watcher as a source, once
-- and in the order of the registrations.
pub record IsWired {m : Manager} (s : Setup m) : Type 0 where
  pub distinct : AllDistinct s.registry.watchers
  pub sources : s.sources ≡ map (λ entry. entry.1) s.registry.watchers

-- What the manager does does not matter.
pub IsWired-moved :
    {m : Manager} {s t : Setup m}
    → t.registry ≡ s.registry
    → t.sources ≡ s.sources
    → IsWired s
    → IsWired t
IsWired-moved {s = s} {t} e f wired = record {
  distinct = subst (λ r. AllDistinct r.watchers) (sym e) wired.distinct;
  sources = f ∙ wired.sources ∙ ap (λ r. map (λ entry. entry.1) r.watchers) (sym e);
}

module _ {m : Manager} (upper : ℕ → ℕ) (b : WatcherBuilder m) (s : Setup m) where
  abbrev shared : WatcherBuilder m
  shared = record b { crd_cache = some s.registry.crd_cache }

  built-IsBuilt : {w : Built m} → (build m upper shared s.manager).0 ≡ ok w → IsBuilt upper shared w
  built-IsBuilt {w} e =
      build-IsBuilt upper shared s.manager {w = w} {t = (build m upper shared s.manager).1}
        (ground arith)

  -- What `Build` says of the watcher that is registered.
  built :
      {w : Built m}
      → (build m upper shared s.manager).0 ≡ ok w
      → (w.crd_name ≡ b.crd_name) × (w.crd_cache ≡ s.registry.crd_cache)
  built {w} e =
      let is_built = built-IsBuilt {w = w} e in
      (ap (λ x. x.crd_name) is_built.new, is_built.shared s.registry.crd_cache refl)

  -- A registration that succeeds builds its watcher with the registry's CRD cache, which stays that of
  -- the registry.
  pub register_on-IsBuilt :
      {w : Built m} {t : Setup m}
      → register_on upper true true b s ≡ some (ok w, t)
      → IsBuilt upper shared w
        × (t.registry.crd_cache ≡ s.registry.crd_cache)
        × (t.sources ≡ w ∷ s.sources)
  unfolding register_on has register
  register_on-IsBuilt {w} h = elim (Option-cases (find b.crd_name s.registry.watchers)) [
    | inr (x, taken) ↦ absurd (ground arith)
    | inl free ↦ elim (Result-cases (build m upper shared s.manager).0) [
      | inl (v, e) ↦ (built-IsBuilt {w = w} (ground arith), ground arith, ground arith)
      | inr (x, e) ↦ absurd (ground arith)
    ]
  ]

  -- `RegisterOn` with a registry and a controller builder keeps the registry wired, whether it succeeds
  -- or fails.
  pub register_on-IsWired :
      {r : Result (RegisterError m.Error) (Built m)} {t : Setup m}
      → register_on upper true true b s ≡ some (r, t)
      → IsWired s
      → IsWired t
  unfolding register_on has register
  register_on-IsWired h wired = elim (Option-cases (find b.crd_name s.registry.watchers)) [
    | inr (x, taken) ↦ ground arith
    | inl free ↦ elim (Result-cases (build m upper shared s.manager).0) [
      | inl (w, e) ↦ record { distinct = ground arith; sources = ground arith }
      | inr (x, e) ↦ ground arith
    ]
  ]

  -- How a registration can end, as the entry of `name` shows it.
  abbrev pub Outcome : String → Result (RegisterError m.Error) (Built m) → Setup m → Type 0
  Outcome name r t =
      ((w : Built m) × (r ≡ ok w)
        × (find b.crd_name s.registry.watchers ≡ none)
        × (find name t.registry.watchers
            ≡ (if str_eq b.crd_name name then some w else find name s.registry.watchers))
        × (t.sources ≡ w ∷ s.sources)
        × (w.crd_cache ≡ s.registry.crd_cache)
        × (w.crd_name ≡ b.crd_name))
      ⊎ ((e : RegisterError m.Error) × (r ≡ err e)
          × (t.registry ≡ s.registry)
          × (t.sources ≡ s.sources)
          × ((is_some (find b.crd_name s.registry.watchers) ≡ false) ⊎ (t ≡ s)))

  pub register_on-Outcome :
      (name : String) {r : Result (RegisterError m.Error) (Built m)} {t : Setup m}
      → register_on upper true true b s ≡ some (r, t)
      → Outcome name r t
  unfolding register_on has register
  register_on-Outcome name h = elim (Option-cases (find b.crd_name s.registry.watchers)) [
    | inr (x, taken) ↦
        inr (already_registered, ground arith, ground arith, ground arith, inr (ground arith))
    | inl free ↦ elim (Result-cases (build m upper shared s.manager).0) [
      | inl (w, e) ↦ inl (
        w,
        ground arith,
        free,
        ground arith,
        ground arith,
        (built {w = w} e).1,
        (built {w = w} e).0,
      )
      | inr (x, e) ↦ inr (building x, ground arith, ground arith, ground arith, inl (ground arith))
    ]
  ]
