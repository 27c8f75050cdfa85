-- ===== src/Base/Text.antt =====
-- Text as the list of its runes, where the source takes it apart; `String` serves everywhere else.
use Prim.Native.Nat.{ℕ, ◌-◌}
use Prim.Native.Char.{code}
use Prim.Native.String.{String}
use mathlib.Core.Bool.{Bool, ◌&&◌}
use mathlib.Core.List.{List, [], ◌∷◌}
use dynamic_crd_watch.Base.Tests.{leb, ltb, if◌then◌else◌}

abbrev pub Text : Type 0
Text = List ℕ

abbrev pub codes : String → Text
codes String.[] = []
codes (String.◌∷◌ c s) = code c ∷ codes s

abbrev pub is_lower : ℕ → Bool
is_lower c = leb b'a' c && leb c b'z'

-- `unicode.ToUpper` on an ASCII rune; on any other it is `upper`, the tables of package unicode.
abbrev pub to_upper : (ℕ → ℕ) → ℕ → ℕ
to_upper upper c = if ltb c 128 then (if is_lower c then c - 32 else c) else upper c
