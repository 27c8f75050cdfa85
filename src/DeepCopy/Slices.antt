-- ===== src/DeepCopy/Slices.antt =====
-- Copies of slices, element by element, as api/v1alpha1/zz_generated.deepcopy.go makes them.
use dynamic_crd_watch.Base.{ℕ, suc, ◌≤◌, ◌<◌, ◌≡◌, ◌⊎◌, Option, none, some, List, [], ◌∷◌}
use dynamic_crd_watch.DeepCopy.Types.{MetaTypes, Slice, nil, at, Heap}
use dynamic_crd_watch.DeepCopy.Copier.{Agree, Copier}

-- The blocks of one type of element.
pub record Arena (t : MetaTypes) (V : Type 0) : Type 0 where
  pub block : Heap t → ℕ → List V
  pub store : ℕ → List V → Heap t → Heap t

pub record IsArena {t : MetaTypes} {V : Type 0} (r : Arena t V) : Type 0 where
  pub block-store : (a : ℕ) (l : List V) (h : Heap t) → r.block (r.store a l h) a ≡ l
  pub keeps_next : (a : ℕ) (l : List V) (h : Heap t) → (r.store a l h).next ≡ h.next
  pub elsewhere :
      (lo hi a : ℕ) (l : List V) (h : Heap t)
      → (a < lo) ⊎ (hi ≤ a)
      → Agree t lo hi h (r.store a l h)
  pub agreed :
      (lo hi a : ℕ) (h k : Heap t) → Agree t lo hi h k → lo ≤ a → a < hi → r.block k a ≡ r.block h a

module _ {t : MetaTypes} {V View : Type 0} (c : Copier t V View) where
  -- The loop `for i := range *in { (*in)[i].DeepCopyInto(&(*out)[i]) }`.
  unfoldable pub copy_all : List V → Heap t → List V × Heap t
  copy_all [] h = ([], h)
  copy_all (v ∷ vs) h =
      let (v', h₁) = c.copy v h in let (vs', h₂) = copy_all vs h₁ in (v' ∷ vs', h₂)

  abbrev pub view_all : Heap t → List V → List View
  view_all h [] = []
  view_all h (v ∷ vs) = c.view h v ∷ view_all h vs

  abbrev pub AllWithin : (lo hi : ℕ) → Heap t → List V → Type 0
  AllWithin lo hi h [] = Unit {0}
  AllWithin lo hi h (v ∷ vs) = c.Within lo hi h v × AllWithin lo hi h vs

  module _ (r : Arena t V) where
    -- A slice that is nil, or the fresh block that `make` gives, filled by the loop.
    unfoldable pub copy_slice : Slice → Heap t → Slice × Heap t
    unfolding copy_all
    copy_slice nil h = (nil, h)
    copy_slice (at a) h =
        let made : Heap t = record h { next = suc h.next } in
        let (items, h₁) = copy_all (r.block h a) made in (at h.next, r.store h.next items h₁)

    abbrev pub view_slice : Heap t → Slice → Option (List View)
    view_slice h nil = none
    view_slice h (at a) = some (view_all h (r.block h a))

    abbrev pub SliceWithin : (lo hi : ℕ) → Heap t → Slice → Type 0
    SliceWithin lo hi h nil = Unit {0}
    SliceWithin lo hi h (at a) = (lo ≤ a) × (a < hi) × AllWithin lo hi h (r.block h a)

    abbrev pub slice : Copier t Slice (Option (List View))
    slice = record { copy = copy_slice; view = view_slice; Within = SliceWithin }
