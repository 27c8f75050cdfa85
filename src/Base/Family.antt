-- ===== src/Base/Family.antt =====
-- Tables indexed by number (goroutines, contexts, readers), and an update at one index.
use Prim.Native.Nat.{ℕ}
use mathlib.Core.Logic.{ite}
use mathlib.Core.Path.{◌≡◌}
use native.Mathlib.Omega.{arith}
use native.Mathlib.Decide.{ℕ_discrete}

abbrev pub update {ℓ} : {A : Type ℓ} → (ℕ → A) → ℕ → A → ℕ → A
update f i a j = ite (ℕ_discrete i j) a (f j)

update-same_at : {A : Type 0} (f : ℕ → A) (i j : ℕ) → update f i (f i) j ≡ f j
update-same_at f i j = ground arith

pub update-same : {A : Type 0} (f : ℕ → A) (i : ℕ) → update f i (f i) ≡ f
update-same f i k j = update-same_at f i j k

pub update_here : {A : Type 0} (f : ℕ → A) (i : ℕ) (a : A) → update f i a i ≡ a
update_here f i a = ground arith

pub update_apart :
    {A : Type 0} (f : ℕ → A) (i : ℕ) (a : A) (j : ℕ) → (i ≡ j → ⊥) → update f i a j ≡ f j
update_apart f i a j differs = ground arith
