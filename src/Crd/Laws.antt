-- ===== src/Crd/Laws.antt =====
-- When a CRD counts as usable, and what trimming a cached object leaves alone.
use dynamic_crd_watch.Base.{
  String, ◌≡◌, refl, ◌↔◌, ◌≢◌, inl, inr, true, false, List, [], ◌∷◌, str_eq, eq_iff, arith,
  Bool-cases,
}
use dynamic_crd_watch.Crd.{
  CrdCondition, Crd, is_zero, established_in, is_crd_established, crd_removed, crd_name_predicate,
  CacheObject, crd, other, transform_crd_for_cache,
}

-- The first condition of type Established has the status True.
pub data FirstEstablished : List CrdCondition → Type 0 where
  here :
      {c : CrdCondition} {cs : List CrdCondition}
      → c.type ≡ "Established"
      → c.status ≡ "True"
      → FirstEstablished (c ∷ cs)
  there :
      {c : CrdCondition} {cs : List CrdCondition}
      → c.type ≢ "Established"
      → FirstEstablished cs
      → FirstEstablished (c ∷ cs)

established_sound : (cs : List CrdCondition) → established_in cs ≡ true → FirstEstablished cs
unfolding established_in
established_sound [] h = absurd (ground arith)
established_sound (c ∷ cs) h = elim (Bool-cases (str_eq c.type "Established")) [
  | inl same ↦ here ((eq_iff _ _).0 same) (ground (arith, eq_iff c.status "True"))
  | inr differs ↦
      there (λ e. ground (arith, eq_iff c.type "Established")) (established_sound cs (ground arith))
]

established_complete : {cs : List CrdCondition} → FirstEstablished cs → established_in cs ≡ true
unfolding established_in
established_complete (here {c} t s) =
    ground (arith, eq_iff c.type "Established", eq_iff c.status "True")
established_complete (there {c} t f) =
    ground (arith, eq_iff c.type "Established", established_complete f)

module _ {Spec : Type 0} where
  pub crd_removed_iff :
      (c : Crd Spec)
      → (crd_removed c ≡ false)
        ↔ ((is_zero c.deletion_timestamp ≡ true) × FirstEstablished c.conditions)
  unfolding crd_removed is_crd_established
  crd_removed_iff c = (
    λ h. (ground arith, established_sound c.conditions (ground arith)),
    λ h. ground (arith, established_complete h.1),
  )

  pub transform-observed :
      (Other : Type 0) (empty : Spec) (c : Crd Spec) (name : String)
      → let trim : CacheObject Spec Other → CacheObject Spec Other =
          transform_crd_for_cache empty in
        (c' : Crd Spec) × (trim (crd c) ≡ crd c')
        × (crd_removed c' ≡ crd_removed c)
        × (crd_name_predicate name c' ≡ crd_name_predicate name c)
        × (c'.spec ≡ empty)
        × (trim (crd c') ≡ crd c')
  unfolding transform_crd_for_cache crd_removed is_crd_established crd_name_predicate
  transform-observed Other empty c name = (
    record c { spec = empty; managed_fields = []; annotations = [] },
    refl,
    refl,
    refl,
    refl,
    refl,
  )

  -- A CRD that the cache has trimmed is judged by what it was: it is usable, that is, not removed,
  -- exactly when its deletion timestamp was nil or the zero time and the first condition of type
  -- Established, which must exist, had the status True; the predicate of a name admits it exactly
  -- when that is its name; its spec is empty, and trimming it again changes nothing. Other objects are
  -- left alone.
  pub trimmed_iff :
      (Other : Type 0) (empty : Spec) (c : Crd Spec) (name : String) (o : Other)
      → (c' : Crd Spec) × (transform_crd_for_cache {Other = Other} empty (crd c) ≡ crd c')
        × ((crd_removed c' ≡ false)
            ↔ ((is_zero c.deletion_timestamp ≡ true) × FirstEstablished c.conditions))
        × ((crd_name_predicate name c' ≡ true) ↔ (c.name ≡ name))
        × (c'.spec ≡ empty)
        × (transform_crd_for_cache {Other = Other} empty (crd c') ≡ crd c')
        × (transform_crd_for_cache {Other = Other} empty (other o) ≡ other o)
  unfolding transform_crd_for_cache crd_removed is_crd_established crd_name_predicate
  trimmed_iff Other empty c name o = (
    record c { spec = empty; managed_fields = []; annotations = [] },
    refl,
    crd_removed_iff c,
    eq_iff c.name name,
    refl,
    refl,
    refl,
  )
