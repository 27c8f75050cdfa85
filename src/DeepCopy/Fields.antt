-- ===== src/DeepCopy/Fields.antt =====
-- Copies of one field after another, and of a part of a structure.
use mathlib.Core.Path.{subst}
use dynamic_crd_watch.Base.{◌≡◌, ap, ap, ◌∙◌, sym, arith}
use dynamic_crd_watch.DeepCopy.Types.{MetaTypes}
use dynamic_crd_watch.DeepCopy.Copier.{Copier, IsDeep, Agree-narrow, extensions, Extends-Within}

module _ {t : MetaTypes} where
  -- One field after another.
  abbrev pub both :
      {X Y VX VY : Type 0} → Copier t X VX → Copier t Y VY → Copier t (X × Y) (VX × VY)
  both c d = record {
    copy = λ v h. let (x, h₁) = c.copy v.0 h in let (y, h₂) = d.copy v.1 h₁ in ((x, y), h₂);
    view = λ h v. (c.view h v.0, d.view h v.1);
    Within = λ lo hi h v. c.Within lo hi h v.0 × d.Within lo hi h v.1;
  }

  pub both-IsDeep :
      {X Y VX VY : Type 0} {c : Copier t X VX} {d : Copier t Y VY}
      → IsDeep t c
      → IsDeep t d
      → IsDeep t (both c d)
  both-IsDeep {c = c} {d = d} deep deep' = record {
    kept = λ lo hi h k v inside g.
        let (e, i) = deep.kept lo hi h k v.0 inside.0 g in
        let (f, j) = deep'.kept lo hi h k v.1 inside.1 g in (ground arith, (i, j));
    widens = λ lo hi lo' hi' h v l u inside. (
      deep.widens lo hi lo' hi' h v.0 l u inside.0,
      deep'.widens lo hi lo' hi' h v.1 l u inside.1,
    );
    extends = λ h v inside.
        let first = deep.extends h v.0 inside.0 in
        let (_, rest) = Extends-Within deep' first inside.1 in
        search (extensions, first, deep'.extends (c.copy v.0 h).1 v.1 rest);
    reads_same = λ h v inside.
        let first = deep.extends h v.0 inside.0 in
        let (same, rest) = Extends-Within deep' first inside.1 in
        let second = deep'.extends (c.copy v.0 h).1 v.1 rest in
        let (stays, _) =
          deep.kept h.next (c.copy v.0 h).1.next (c.copy v.0 h).1 (d.copy v.1 (c.copy v.0 h).1).1
            (c.copy v.0 h).0 (deep.fresh h v.0 inside.0)
            (Agree-narrow (omega arith) (omega arith) second.agree) in
        let one = stays ∙ deep.reads_same h v.0 inside.0 in
        let two = deep'.reads_same (c.copy v.0 h).1 v.1 rest ∙ same in ground arith;
    fresh = λ h v inside.
        let h₁ = (c.copy v.0 h).1 in
        let h₂ = (d.copy v.1 h₁).1 in
        let first = deep.extends h v.0 inside.0 in
        let (_, rest) = Extends-Within deep' first inside.1 in
        let second = deep'.extends h₁ v.1 rest in
        let (_, stays) =
          deep.kept h.next h₁.next h₁ h₂ (c.copy v.0 h).0 (deep.fresh h v.0 inside.0)
            (Agree-narrow (omega arith) (omega arith) second.agree) in
        (
          deep.widens h.next h₁.next h.next h₂.next h₂ (c.copy v.0 h).0 (omega arith) second.grows
              stays,
          deep'.widens h₁.next h₂.next h.next h₂.next h₂ (d.copy v.1 h₁).0 first.grows (omega arith)
              (deep'.fresh h₁ v.1 rest),
        );
  }

  -- A copy of a part of a structure, with the rest of it as it was.
  abbrev pub through :
      {V X VX View : Type 0}
      → Copier t X VX
      → (V → X)
      → (V → X → V)
      → (V → VX → View)
      → Copier t V View
  through c get put shape = record {
    copy = λ v h. let (x, h₁) = c.copy (get v) h in (put v x, h₁);
    view = λ h v. shape v (c.view h (get v));
    Within = λ lo hi h v. c.Within lo hi h (get v);
  }

  pub through-IsDeep :
      {V X VX View : Type 0} {c : Copier t X VX} (get : V → X) (put : V → X → V)
      (shape : V → VX → View)
      → IsDeep t c
      → ((v : V) (x : X) → get (put v x) ≡ x)
      → ((v : V) (x : X) → shape (put v x) ≡ shape v)
      → IsDeep t (through c get put shape)
  through-IsDeep {c = c} get put shape deep got rest = record {
    kept = λ lo hi h k v inside g.
        let (e, i) = deep.kept lo hi h k (get v) inside g in (ap (shape v) e, i);
    widens = λ lo hi lo' hi' h v l u inside. deep.widens lo hi lo' hi' h (get v) l u inside;
    extends = λ h v inside. deep.extends h (get v) inside;
    reads_same = λ h v inside.
        let (x, h₁) = c.copy (get v) h in
        ap (λ f. f (c.view h₁ (get (put v x)))) (rest v x)
        ∙ ap (shape v) (ap (c.view h₁) (got v x) ∙ deep.reads_same h (get v) inside);
    fresh = λ h v inside.
        let (x, h₁) = c.copy (get v) h in
        subst (c.Within h.next h₁.next h₁) (sym (got v x)) (deep.fresh h (get v) inside);
  }
