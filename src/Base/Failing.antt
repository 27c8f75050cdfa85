-- ===== src/Base/Failing.antt =====
-- Computations that may fail, over a state: what they changed before they failed stays changed.
use mathlib.Core.Path.{◌≡◌, refl}
use mathlib.Core.Logic.{◌⊎◌, inl, inr}
use native.Mathlib.Omega.{arith}

pub data Result (Error A : Type 0) : Type 0 where
  ok : A → Result Error A
  err : Error → Result Error A

abbrev pub Failing : Type 0 → Type 0 → Type 0 → Type 0
Failing State Error A = State → Result Error A × State

module _ {State Error : Type 0} where
  infixl 5 ◌>>=◌ ◌>>◌
  abbrev pub ◌>>=◌ :
      {A B : Type 0} → Failing State Error A → (A → Failing State Error B) → Failing State Error B
  ◌>>=◌ c k s = let (r, s') = c s in elim r [ ok a ↦ k a s' | err e ↦ (err e, s') ]

  abbrev pub ◌>>◌ :
      {B : Type 0} → Failing State Error (Unit {0}) → Failing State Error B → Failing State Error B
  c >> k = c >>= λ _. k

  abbrev pub return : {A : Type 0} → A → Failing State Error A
  return a s = (ok a, s)

  abbrev pub throw : {A : Type 0} → Error → Failing State Error A
  throw e s = (err e, s)

pub Result-cases :
    {Error A : Type 0} (r : Result Error A) → ((a : A) × (r ≡ ok a)) ⊎ ((e : Error) × (r ≡ err e))
Result-cases (ok a) = inl (a, refl)
Result-cases (err e) = inr (e, refl)

module _ {State Error A B : Type 0} (c : Failing State Error A)
    (k : A → Failing State Error B) where
  -- A sequence that succeeds has a first part that succeeds, and a second part that goes on from there.
  pub >>=-eq-ok :
      (s : State) {t : State} {b : B}
      → (c >>= k) s ≡ (ok b, t)
      → (a : A) × (u : State) × (c s ≡ (ok a, u)) × (k a u ≡ (ok b, t))
  >>=-eq-ok s h = elim (Result-cases (c s).0) [
    | inl (a, e) ↦ (a, (c s).1, ground arith, ground arith)
    | inr (x, e) ↦ absurd (ground arith)
  ]

  -- A sequence of parts that succeed succeeds.
  pub >>=_ok :
      (s : State) (a : A) (b : B) → (c s).0 ≡ ok a → (k a (c s).1).0 ≡ ok b → ((c >>= k) s).0 ≡ ok b
  >>=_ok s a b e f = ground arith

module _ {State Error A B : Type 0} (c : Failing State Error A)
    (k : A → Failing State Error B) where
  pub >>=_assoc :
      {D : Type 0} (l : B → Failing State Error D) (s : State)
      → ((c >>= k) >>= l) s ≡ (c >>= λ a. k a >>= l) s
  >>=_assoc l s = elim (Result-cases (c s).0) [
    | inl (a, e) ↦ ground arith
    | inr (x, e) ↦ ground arith
  ]

  -- What goes on alike from every state goes on alike after `c`.
  pub >>=_alike :
      (l : A → Failing State Error B) (s : State)
      → ((a : A) (t : State) → k a t ≡ l a t)
      → (c >>= k) s ≡ (c >>= l) s
  >>=_alike l s same = elim (Result-cases (c s).0) [
    | inl (a, e) ↦ ground (arith, same a (c s).1)
    | inr (x, e) ↦ ground arith
  ]

-- The errors that `c` can end with have the property `P`.
abbrev pub FailsWith : {State Error A : Type 0} → (Error → Type 0) → Failing State Error A → Type 0
FailsWith P c = (s : _) (e : _) → (c s).0 ≡ err e → P e

pub >>=-FailsWith :
    {State Error A B : Type 0} (P : Error → Type 0) (c : Failing State Error A)
    (k : A → Failing State Error B)
    → FailsWith P c
    → ((a : A) → FailsWith P (k a))
    → FailsWith P (c >>= k)
>>=-FailsWith P c k first rest s e h = elim (Result-cases (c s).0) [
  | inl (a, g) ↦ rest a (c s).1 e (ground arith)
  | inr (x, g) ↦ first s e (ground arith)
]
