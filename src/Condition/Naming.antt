-- ===== src/Condition/Naming.antt =====
-- pkg/dynamicwatch/condition.go: `conditionTypeFromCRDName` and `toPascalCase`.
use dynamic_crd_watch.Base.{
  ℕ, zero, suc, Option, none, some, List, [], ◌∷◌, ◌++◌, map, codes, to_upper, ◌==◌, if◌then◌else◌,
}
use dynamic_crd_watch.Base.Lists.{length}
use dynamic_crd_watch.Base.Text.{Text}

-- `strings.HasPrefix` with what follows the prefix.
unfoldable pub strip_prefix : Text → Text → Option Text
strip_prefix [] s = some s
strip_prefix (p ∷ ps) [] = none
strip_prefix (p ∷ ps) (c ∷ cs) = if p == c then strip_prefix ps cs else none

-- The known abbreviations, in the order in which they are tried.
abbrev pub abbreviations : List Text
abbreviations =
    codes "http"
    ∷ codes "grpc"
    ∷ codes "tcp"
    ∷ codes "tls"
    ∷ codes "dns"
    ∷ codes "api"
    ∷ codes "crd"
    ∷ []

-- The first of the prefixes that `s` begins with, with the rest of `s`.
unfoldable pub find_prefix : List Text → Text → Option (Text × Text)
unfolding strip_prefix
find_prefix [] s = none
find_prefix (p ∷ ps) s = elim (strip_prefix p s) [
  | none ↦ find_prefix ps s
  | some rest ↦ some (p, rest)
]

unfoldable pub capitalize : (ℕ → ℕ) → Text → Text
capitalize upper [] = []
capitalize upper (c ∷ cs) = to_upper upper c ∷ cs

-- The body of `toPascalCase` for a text that is not empty, once the abbreviations have been tried;
-- `again` is its call of itself.
abbrev pub pascal_split : (ℕ → ℕ) → (Text → Text) → Text → Option (Text × Text) → Text
pascal_split upper again s none = capitalize upper s
pascal_split upper again s (some (prefix, [])) = map (to_upper upper) prefix
pascal_split upper again s (some (prefix, r ∷ rest)) =
    map (to_upper upper) prefix ++ again (r ∷ rest)

-- `toPascalCase`; the fuel bounds its calls of itself.
unfoldable pub pascal_fuel : (ℕ → ℕ) → ℕ → Text → Text
pascal_fuel upper zero s = s
pascal_fuel upper (suc fuel) [] = []
pascal_fuel upper (suc fuel) (c ∷ cs) =
    pascal_split upper (pascal_fuel upper fuel) (c ∷ cs) (find_prefix abbreviations (c ∷ cs))

unfoldable pub to_pascal_case : (ℕ → ℕ) → Text → Text
unfolding pascal_fuel find_prefix capitalize
to_pascal_case upper s = pascal_fuel upper (length s) s

-- `strings.Cut(crdName, ".")`: what stands before the first dot.
unfoldable pub before_dot : Text → Text
before_dot [] = []
before_dot (c ∷ cs) = if c == b'.' then [] else c ∷ before_dot cs

unfoldable pub condition_type_from_crd_name : (ℕ → ℕ) → Text → Text
unfolding to_pascal_case before_dot
condition_type_from_crd_name upper crd_name =
    to_pascal_case upper (before_dot crd_name) ++ codes "Available"
