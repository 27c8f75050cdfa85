-- ===== src/Registry/View.antt =====
-- `Conditions` of pkg/dynamicwatch/condition.go ranges over a Go map, in no particular order: what it
-- returns is a bag of conditions, which the map alone determines.
use mathlib.Core.Quot
use mathlib.Core.Quot.{Quot, Quot-set}
use mathlib.Core.List.{Permᴰ}
use mathlib.Core.List.Permᴰ
use dynamic_crd_watch.Base.{
  String, ◌≡◌, refl, sym, ap, ◌∙◌, inl, inr, Bool, false, ◌||◌, Option, none, some, List, [], ◌∷◌,
  map, arith, str_eq, eq_iff, if◌then◌else◌, is_some, Bool-cases, Option-cases,
}
use dynamic_crd_watch.Watcher.{Watcher}
use dynamic_crd_watch.Condition.{Condition, condition}
use dynamic_crd_watch.Builder.{Manager, Built}
use dynamic_crd_watch.Registry.{Registry, find, conditions}
use dynamic_crd_watch.Registry.Laws.{AllDistinct}

module _ {V : Type 0} where
  -- The list with the entry of a key taken out.
  abbrev without : String → List (String × V) → List (String × V)
  without key [] = []
  without key ((k, v) ∷ l) = if str_eq k key then l else (k, v) ∷ without key l

  find-without :
      (key name : String) (l : List (String × V))
      → AllDistinct l
      → find name (without key l) ≡ (if str_eq key name then none else find name l)
  unfolding find
  find-without key name [] d = ground arith
  find-without key name ((k, v) ∷ l) (new, d) =
      ground (arith, eq_iff k key, eq_iff k name, eq_iff key name, find-without key name l d)

  without-AllDistinct :
      (key : String) (l : List (String × V)) → AllDistinct l → AllDistinct (without key l)
  unfolding find
  without-AllDistinct key [] d = tt
  without-AllDistinct key ((k, v) ∷ l) (new, d) = elim (Bool-cases (str_eq k key)) [
    | inl same ↦ rw same d
    | inr differs ↦ rw differs (
      find-without key k l d ∙ ground (arith, eq_iff key k, eq_iff k key),
      without-AllDistinct key l d,
    )
  ]

  without-Perm :
      (key : String) (v : V) (l : List (String × V))
      → find key l ≡ some v
      → Permᴰ l ((key, v) ∷ without key l)
  unfolding find
  without-Perm key v [] h = absurd (ground arith)
  without-Perm key v ((k, w) ∷ l) h = elim (Bool-cases (str_eq k key)) [
    | inl same ↦
        let entry : w ≡ v = ground arith in
        rw same (Permᴰ.cons (λ i. ((eq_iff k key).0 same i, entry i)) (Permᴰ.refl l))
    | inr differs ↦
        rw differs (
          Permᴰ.trans (Permᴰ.cons refl (without-Perm key v l (ground arith)))
            (Permᴰ.swap refl refl))
  ]

  -- Two lists that stand for one map have the same entries.
  same_map-Perm :
      (l l' : List (String × V))
      → AllDistinct l
      → AllDistinct l'
      → ((name : String) → find name l ≡ find name l')
      → Permᴰ l l'
  unfolding find
  same_map-Perm [] [] d d' same = Permᴰ.nil
  same_map-Perm [] ((k, v) ∷ l') d d' same = absurd (ground (arith, same k, eq_iff k k))
  same_map-Perm ((k, v) ∷ l) l' (new, d) d' same =
      let there : find k l' ≡ some v = ground (arith, same k, eq_iff k k) in
      let rest =
        same_map-Perm l (without k l') d (without-AllDistinct k l' d')
          (λ name. ground (arith, same name, find-without k name l' d', eq_iff k name)) in
      Permᴰ.trans (Permᴰ.cons refl rest) (Permᴰ.symm (without-Perm k v l' there))

-- Whether a name is in a list.
abbrev pub occurs : String → List String → Bool
occurs name [] = false
occurs name (k ∷ ks) = str_eq k name || occurs name ks

abbrev pub AllNew : List String → Type 0
AllNew [] = Unit
AllNew (k ∷ ks) = (occurs k ks ≡ false) × AllNew ks

module _ {V : Type 0} where
  -- An order in which a range over the map goes through its keys: each key once.
  abbrev pub IsOrder : List (String × V) → List String → Type 0
  IsOrder l order = AllNew order × ((name : String) → occurs name order ≡ is_some (find name l))

  -- The entries in such an order.
  abbrev entries : List (String × V) → List String → List (String × V)
  entries l [] = []
  entries l (k ∷ ks) = elim (find k l) [ none ↦ entries l ks | some v ↦ (k, v) ∷ entries l ks ]

  find-entries :
      (name : String) (l : List (String × V)) (ks : List String)
      → find name (entries l ks) ≡ (if occurs name ks then find name l else none)
  unfolding find
  find-entries name l [] = refl
  find-entries name l (k ∷ ks) = elim (Option-cases (find k l)) [
    | inl gone ↦ rw (entries, gone) (ground (arith, find-entries name l ks, eq_iff k name))
    | inr (v, there) ↦ rw (entries, there) (ground (arith, find-entries name l ks, eq_iff k name))
  ]

  entries-AllDistinct :
      (l : List (String × V)) (ks : List String) → AllNew ks → AllDistinct (entries l ks)
  entries-AllDistinct l [] new = tt
  entries-AllDistinct l (k ∷ ks) (new, rest) = elim (Option-cases (find k l)) [
    | inl gone ↦ rw (entries, gone) (entries-AllDistinct l ks rest)
    | inr (v, there) ↦
        rw (entries, there) (find-entries k l ks ∙ rw new refl, entries-AllDistinct l ks rest)
  ]

  entries-Perm :
      (l : List (String × V)) (order : List String)
      → AllDistinct l
      → IsOrder l order
      → Permᴰ l (entries l order)
  entries-Perm l order d (new, all) =
      same_map-Perm l (entries l order) d (entries-AllDistinct l order new) (λ name.
        sym (find-entries name l order ∙ kept (occurs name order) (find name l) (all name)))
    where
      kept : (b : Bool) (x : Option V) → b ≡ is_some x → (if b then x else none) ≡ x
      kept b none e = ground arith
      kept b (some v) e = ground arith

-- What `Conditions` is to return where the range goes through the names in the given order: for each
-- name the condition of the watcher under it.
abbrev pub ranged : {m : Manager} → (Built m → Watcher) → Registry m → List String → List Condition
ranged now r [] = []
ranged now r (k ∷ ks) = elim (find k r.watchers) [
  | none ↦ ranged now r ks
  | some w ↦ condition (now w) ∷ ranged now r ks
]

ranged-entries :
    {m : Manager} (now : Built m → Watcher) (r : Registry m) (ks : List String)
    → map (λ entry. condition (now entry.1)) (entries r.watchers ks) ≡ ranged now r ks
ranged-entries now r [] = refl
ranged-entries now r (k ∷ ks) = elim (Option-cases (find k r.watchers)) [
  | inl gone ↦ rw (entries, ranged, gone) (ranged-entries now r ks)
  | inr (w, there) ↦
      rw (entries, ranged, there) (ap (λ l. condition (now w) ∷ l) (ranged-entries now r ks))
]

-- A list up to order.
abbrev pub Bag : Type 0 → Type 0
Bag A = Quot (Permᴰ {A = A})

abbrev pub bag : {A : Type 0} → List A → Bag A
bag = Quot.mk

-- `Conditions` returns, up to order, one condition for each registered name: that of the watcher under
-- the name, as that now is. For a registry in which no name stands twice, and for every order in
-- which a range over its map can go through the names (each of them once), the bag of what it
-- returns is the bag of the conditions gathered in that order.
pub conditions-bag :
    {m : Manager} (now : Built m → Watcher) (r : Registry m) (order : List String)
    → AllDistinct r.watchers
    → IsOrder r.watchers order
    → bag (conditions now r) ≡ bag (ranged now r order)
unfolding conditions
conditions-bag now r order d all =
    Quot.sound (Permᴰ.map _ (entries-Perm r.watchers order d all))
    ∙ ap bag (ranged-entries now r order)
