-- ===== src/Builder/Name.antt =====
-- pkg/dynamicwatch/builder.go: `validateCRDName`.
use dynamic_crd_watch.Base.{
  ℕ, suc, ◌-◌, Bool, false, not, ◌||◌, Option, none, some, [], ◌∷◌, ltb, leb, ◌==◌, if◌then◌else◌,
}
use dynamic_crd_watch.Base.Lists.{length}
use dynamic_crd_watch.Base.Text.{Text}

-- `strings.IndexByte`; `none` is -1.
unfoldable pub index_byte : Text → ℕ → Option ℕ
index_byte [] b = none
index_byte (c ∷ cs) b =
    if c == b then some 0 else elim (index_byte cs b) [ none ↦ none | some i ↦ some (suc i) ]

-- Whether `validateCRDName` returns nil. An index of -1 is below 1.
unfoldable pub validate_crd_name : Text → Bool
unfolding index_byte
validate_crd_name name = elim (index_byte name b'.') [
  | none ↦ false
  | some idx ↦ not (ltb idx 1 || leb (length name - 1) idx)
]
