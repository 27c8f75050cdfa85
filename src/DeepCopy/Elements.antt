-- ===== src/DeepCopy/Elements.antt =====
-- What the loop over the elements of a slice promises.
use dynamic_crd_watch.Base.{ℕ, ◌≤◌, ◌≡◌, refl, List, [], ◌∷◌, arith}
use dynamic_crd_watch.DeepCopy.Types.{MetaTypes, Heap}
use dynamic_crd_watch.DeepCopy.Copier.{Agree, Extends, Copier, IsDeep, Agree-narrow, extensions}
use dynamic_crd_watch.DeepCopy.Slices.{copy_all, view_all, AllWithin}

module _ {t : MetaTypes} {V View : Type 0} {c : Copier t V View} (deep : IsDeep t c) where
  pub kept_all :
      (lo hi : ℕ) (h k : Heap t) (vs : List V)
      → AllWithin c lo hi h vs
      → Agree t lo hi h k
      → (view_all c k vs ≡ view_all c h vs) × AllWithin c lo hi k vs
  kept_all lo hi h k [] inside g = (refl, tt)
  kept_all lo hi h k (v ∷ vs) (one, rest) g =
      let (e, i) = deep.kept lo hi h k v one g in
      let (f, j) = kept_all lo hi h k vs rest g in (ground arith, (i, j))

  pub widens_all :
      (lo hi lo' hi' : ℕ) (h : Heap t) (vs : List V)
      → lo' ≤ lo
      → hi ≤ hi'
      → AllWithin c lo hi h vs
      → AllWithin c lo' hi' h vs
  widens_all lo hi lo' hi' h [] l u inside = tt
  widens_all lo hi lo' hi' h (v ∷ vs) l u (one, rest) =
      (deep.widens lo hi lo' hi' h v l u one, widens_all lo hi lo' hi' h vs l u rest)

  pub Extends-AllWithin :
      (h k : Heap t) (vs : List V)
      → Extends t h k
      → AllWithin c 0 h.next h vs
      → (view_all c k vs ≡ view_all c h vs) × AllWithin c 0 k.next k vs
  Extends-AllWithin h k vs e inside =
      let (same, still) = kept_all 0 h.next h k vs inside e.agree in
      (same, widens_all 0 h.next 0 k.next k vs (omega arith) e.grows still)

  -- The loop promises of all the elements what `DeepCopyInto` promises of each.
  pub record AreCopied (h : Heap t) (vs : List V) : Type 0 where
    pub extends : Extends t h (copy_all c vs h).1
    pub reads_same : view_all c (copy_all c vs h).1 (copy_all c vs h).0 ≡ view_all c h vs
    pub fresh : AllWithin c h.next (copy_all c vs h).1.next (copy_all c vs h).1 (copy_all c vs h).0

  pub copy_all-AreCopied : (h : Heap t) (vs : List V) → AllWithin c 0 h.next h vs → AreCopied h vs
  unfolding copy_all
  copy_all-AreCopied h [] inside = record {
    extends = search extensions;
    reads_same = refl;
    fresh = tt;
  }
  copy_all-AreCopied h (v ∷ vs) (one, rest) =
      let h₁ = (c.copy v h).1 in
      let first = deep.extends h v one in
      let (same, rest₁) = Extends-AllWithin h h₁ vs first rest in
      let others = copy_all-AreCopied h₁ vs rest₁ in
      let h₂ = (copy_all c vs h₁).1 in
      let (reads, stays) =
        deep.kept h.next h₁.next h₁ h₂ (c.copy v h).0 (deep.fresh h v one)
          (Agree-narrow (omega arith) (omega arith) others.extends.agree) in
      record {
        extends = search (extensions, first, others.extends);
        reads_same = ground (arith, deep.reads_same h v one, others.reads_same);
        fresh = (
          deep.widens h.next h₁.next h.next h₂.next h₂ (c.copy v h).0 (omega arith)
              others.extends.grows stays,
          widens_all h₁.next h₂.next h.next h₂.next h₂ (copy_all c vs h₁).0 first.grows
              (omega arith) others.fresh,
        );
      }
