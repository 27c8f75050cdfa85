-- ===== src/DeepCopy/Blocks.antt =====
-- A copied slice is a fresh block that reads the same.
use mathlib.Core.Path.{subst}
use dynamic_crd_watch.Base.{ℕ, suc, ◌≤◌, ◌≡◌, inl, inr, refl, sym, ap, ◌∙◌, some, List, arith}
use dynamic_crd_watch.DeepCopy.Types.{MetaTypes, Slice, nil, at, Heap}
use dynamic_crd_watch.DeepCopy.Copier.{
  Agree, Extends, Copier, IsDeep, Agree-narrow, Agree-trans, Extends-refl, Extends-trans,
}
use dynamic_crd_watch.DeepCopy.Slices.{
  Arena, IsArena, copy_all, view_all, AllWithin, copy_slice, view_slice, SliceWithin, slice,
}
use dynamic_crd_watch.DeepCopy.Elements.{
  kept_all, widens_all, Extends-AllWithin, AreCopied, copy_all-AreCopied,
}

module _ {t : MetaTypes} {V View : Type 0} {c : Copier t V View} (deep : IsDeep t c) where
  module _ (r : Arena t V) (arena : IsArena r) where
    slice_kept :
        (lo hi : ℕ) (h k : Heap t) (v : Slice)
        → SliceWithin c r lo hi h v
        → Agree t lo hi h k
        → (view_slice c r k v ≡ view_slice c r h v) × SliceWithin c r lo hi k v
    slice_kept lo hi h k nil inside g = (refl, tt)
    slice_kept lo hi h k (at a) (l, u, all) g =
        let same = arena.agreed lo hi a h k g l u in
        let (e, i) = kept_all deep lo hi h k (r.block h a) all g in rw same (ap some e, (l, u, i))

    slice_widens :
        (lo hi lo' hi' : ℕ) (h : Heap t) (v : Slice)
        → lo' ≤ lo
        → hi ≤ hi'
        → SliceWithin c r lo hi h v
        → SliceWithin c r lo' hi' h v
    slice_widens lo hi lo' hi' h nil l u inside = tt
    slice_widens lo hi lo' hi' h (at a) l u (x, y, all) =
        (omega arith, omega arith, widens_all deep lo hi lo' hi' h (r.block h a) l u all)

    -- `make` takes the next address.
    abbrev made : Heap t → Heap t
    made h = record h { next = suc h.next }

    made-Extends : (h : Heap t) → Extends t h (made h)
    made-Extends h = record {
      grows = omega arith;
      agree = record {
        conditions = λ a x y. refl;
        plugin_configs = λ a x y. refl;
        themes = λ a x y. refl;
        widgets = λ a x y. refl;
        foreign = λ a x y. refl;
      };
    }

    module _ (h : Heap t) (a : ℕ) (inside : SliceWithin c r 0 h.next h (at a)) where
      elements-AreCopied : AreCopied deep (made h) (r.block h a)
      elements-AreCopied =
          copy_all-AreCopied deep (made h) (r.block h a)
            (Extends-AllWithin deep h (made h) (r.block h a) (made-Extends h) inside.2).1

      -- The store once the loop is over, and once the block is written.
      abbrev looped : Heap t
      looped = (copy_all c (r.block h a) (made h)).1

      abbrev items : List V
      items = (copy_all c (r.block h a) (made h)).0

      abbrev written : Heap t
      written = r.store h.next items looped

      written-Extends : Extends t h written
      written-Extends =
          let e = elements-AreCopied.extends in
          record {
            grows = omega (arith, e.grows, arena.keeps_next h.next items looped);
            agree =
                Agree-trans
                  (Agree-narrow (omega arith) (omega arith)
                    (Extends-trans (made-Extends h) e).agree)
                  (arena.elsewhere 0 h.next h.next items looped (inr (omega arith)));
          }

      items_kept :
          (view_all c written items ≡ view_all c looped items)
          × AllWithin c (made h).next looped.next written items
      items_kept =
          kept_all deep (made h).next looped.next looped written items elements-AreCopied.fresh
            (arena.elsewhere (made h).next looped.next h.next items looped (inl (omega arith)))

      written_reads : view_all c written (r.block written h.next) ≡ view_all c h (r.block h a)
      written_reads =
          ap (view_all c written) (arena.block-store h.next items looped)
          ∙ items_kept.0
          ∙ elements-AreCopied.reads_same
          ∙ (Extends-AllWithin deep h (made h) (r.block h a) (made-Extends h) inside.2).0

      written_fresh : SliceWithin c r h.next written.next written (at h.next)
      written_fresh =
          let next = arena.keeps_next h.next items looped in
          let grows = elements-AreCopied.extends.grows in
          (
            omega arith,
            omega arith,
            subst (AllWithin c h.next written.next written)
                (sym (arena.block-store h.next items looped))
                (widens_all deep (made h).next looped.next h.next written.next written items
                  (omega arith) (omega arith) items_kept.1),
          )

    slice_copied :
        (h : Heap t) (v : Slice)
        → SliceWithin c r 0 h.next h v
        → Extends t h (copy_slice c r v h).1
          × (view_slice c r (copy_slice c r v h).1 (copy_slice c r v h).0 ≡ view_slice c r h v)
          × SliceWithin c r h.next
              (copy_slice c r v h).1.next
              (copy_slice c r v h).1
              (copy_slice c r v h).0
    unfolding copy_slice
    slice_copied h nil inside = (Extends-refl h, refl, tt)
    slice_copied h (at a) inside =
        (written-Extends h a inside, ap some (written_reads h a inside), written_fresh h a inside)

    -- A copied slice reads as the one it is copied from, and lies on fresh blocks.
    pub slice-IsDeep : IsDeep t (slice c r)
    slice-IsDeep = record {
      kept = slice_kept;
      widens = slice_widens;
      extends = λ h v inside. (slice_copied h v inside).0;
      reads_same = λ h v inside. (slice_copied h v inside).1;
      fresh = λ h v inside. (slice_copied h v inside).2;
    }
