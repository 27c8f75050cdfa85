-- ===== src/Builder/Names.antt =====
-- Which names `validateCRDName` of pkg/dynamicwatch/builder.go accepts.
use dynamic_crd_watch.Base.{
  ℕ, suc, ◌+◌, ◌<◌, ◌≡◌, ◌≢◌, ap, ◌∙◌, inl, inr, ◌↔◌, true, some, [], ◌∷◌, ◌++◌, ◌==◌, arith,
  Bool-cases, Option-cases,
}
use dynamic_crd_watch.Base.Lists.{length}
use dynamic_crd_watch.Base.Text.{Text}
use dynamic_crd_watch.Builder.Name.{index_byte, validate_crd_name}

-- No rune of a plural is a dot.
abbrev pub AllOther : ℕ → Text → Type 0
AllOther b [] = Unit
AllOther b (c ∷ cs) = (c ≢ b) × AllOther b cs

-- `<plural>.<group>`, split at the first dot, with both parts not empty.
pub record IsQualified (name : Text) : Type 0 where
  pub plural : Text
  pub group : Text
  pub split : name ≡ plural ++ b'.' ∷ group
  pub first : AllOther b'.' plural
  pub plural_full : 0 < length plural
  pub group_full : 0 < length group

length-append : (xs ys : Text) → length (xs ++ ys) ≡ length xs + length ys
length-append [] ys = omega arith
length-append (x ∷ xs) ys = omega (arith, length-append xs ys)

-- The index splits the text at the first occurrence.
index_byte_sound :
    (s : Text) (b i : ℕ)
    → index_byte s b ≡ some i
    → (p : Text) × (g : Text) × (s ≡ p ++ b ∷ g) × AllOther b p × (length p ≡ i)
unfolding index_byte
index_byte_sound [] b i h = absurd (ground arith)
index_byte_sound (c ∷ cs) b i h = elim (Bool-cases (c == b)) [
  | inl same ↦ ([], cs, ground arith, tt, ground arith)
  | inr differs ↦ elim (Option-cases (index_byte cs b)) [
    | inl e ↦ absurd (ground arith)
    | inr (k, e) ↦
        let (p, g, split, other, at) = index_byte_sound cs b k e in
        (c ∷ p, g, ground arith, (ground arith, other), ground arith)
  ]
]

index_byte_complete :
    (p g : Text) (b : ℕ) → AllOther b p → index_byte (p ++ b ∷ g) b ≡ some (length p)
unfolding index_byte
index_byte_complete [] g b h = ground arith
index_byte_complete (c ∷ cs) g b h = ground (arith, index_byte_complete cs g b)

-- `validateCRDName` accepts exactly the names of the form `<plural>.<group>`, split at the first dot,
-- with a plural that is not empty and a group that is not empty.
pub validate_crd_name_iff : (name : Text) → (validate_crd_name name ≡ true) ↔ IsQualified name
unfolding validate_crd_name
validate_crd_name_iff name = (there, back)
  where
    there : validate_crd_name name ≡ true → IsQualified name
    there h = elim (Option-cases (index_byte name b'.')) [
      | inl e ↦ absurd (ground arith)
      | inr (i, e) ↦
          let (p, g, split, other, at) = index_byte_sound name b'.' i e in
          let len : length name ≡ length p + suc (length g) =
            ap length split ∙ length-append p (b'.' ∷ g) in
          record {
            plural = p;
            group = g;
            split = split;
            first = other;
            plural_full = ground arith;
            group_full = ground arith;
          }
    ]

    back : IsQualified name → validate_crd_name name ≡ true
    back q =
        let e : index_byte name b'.' ≡ some (length q.plural) =
          rw q.split (index_byte_complete q.plural q.group b'.' q.first) in
        let len : length name ≡ length q.plural + suc (length q.group) =
          ap length q.split ∙ length-append q.plural (b'.' ∷ q.group) in
        ground arith
