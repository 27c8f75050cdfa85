-- ===== src/DeepCopy/Copier.antt =====
-- What a deep copy of api/v1alpha1/zz_generated.deepcopy.go promises: a value that reads the same, on
-- blocks of its own.
use dynamic_crd_watch.Base.{ℕ, ◌≤◌, ◌<◌, ◌≡◌, refl, arith, ◌∙◌}
use dynamic_crd_watch.DeepCopy.Types.{MetaTypes, Heap}

module _ (t : MetaTypes) where
  -- Two stores have the same blocks from `lo` up to `hi`.
  pub record Agree (lo hi : ℕ) (h k : Heap t) : Type 0 where
    pub conditions : (a : ℕ) → lo ≤ a → a < hi → k.conditions a ≡ h.conditions a
    pub plugin_configs : (a : ℕ) → lo ≤ a → a < hi → k.plugin_configs a ≡ h.plugin_configs a
    pub themes : (a : ℕ) → lo ≤ a → a < hi → k.themes a ≡ h.themes a
    pub widgets : (a : ℕ) → lo ≤ a → a < hi → k.widgets a ≡ h.widgets a
    pub foreign : (a : ℕ) → lo ≤ a → a < hi → k.foreign a ≡ h.foreign a

  -- `k` comes from `h` by allocation alone.
  pub record Extends (h k : Heap t) : Type 0 where
    pub grows : h.next ≤ k.next
    pub agree : Agree 0 h.next h k

  -- `DeepCopyInto` of a type, as what it writes and the store it leaves; what a value reads as, and when
  -- all the blocks it reads are among those from `lo` up to `hi`.
  pub record Copier (V View : Type 0) : Type 1 where
    pub copy : V → Heap t → V × Heap t
    pub view : Heap t → V → View
    pub Within : (lo hi : ℕ) → Heap t → V → Type 0

  pub record IsDeep {V View : Type 0} (c : Copier V View) : Type 0 where
    pub kept :
        (lo hi : ℕ) (h k : Heap t) (v : V)
        → c.Within lo hi h v
        → Agree lo hi h k
        → (c.view k v ≡ c.view h v) × c.Within lo hi k v
    pub widens :
        (lo hi lo' hi' : ℕ) (h : Heap t) (v : V)
        → lo' ≤ lo
        → hi ≤ hi'
        → c.Within lo hi h v
        → c.Within lo' hi' h v
    pub extends : (h : Heap t) (v : V) → c.Within 0 h.next h v → Extends h (c.copy v h).1
    pub reads_same :
        (h : Heap t) (v : V)
        → c.Within 0 h.next h v
        → c.view (c.copy v h).1 (c.copy v h).0 ≡ c.view h v
    pub fresh :
        (h : Heap t) (v : V)
        → c.Within 0 h.next h v
        → c.Within h.next (c.copy v h).1.next (c.copy v h).1 (c.copy v h).0

module _ {t : MetaTypes} where
  pub Agree-narrow :
      {lo hi lo' hi' : ℕ} {h k : Heap t}
      → lo ≤ lo'
      → hi' ≤ hi
      → Agree t lo hi h k
      → Agree t lo' hi' h k
  Agree-narrow from to g = record {
    conditions = λ a l u. g.conditions a (omega arith) (omega arith);
    plugin_configs = λ a l u. g.plugin_configs a (omega arith) (omega arith);
    themes = λ a l u. g.themes a (omega arith) (omega arith);
    widgets = λ a l u. g.widgets a (omega arith) (omega arith);
    foreign = λ a l u. g.foreign a (omega arith) (omega arith);
  }

  pub Agree-trans :
      {lo hi : ℕ} {h k l : Heap t} → Agree t lo hi h k → Agree t lo hi k l → Agree t lo hi h l
  Agree-trans g f = record {
    conditions = λ a x y. f.conditions a x y ∙ g.conditions a x y;
    plugin_configs = λ a x y. f.plugin_configs a x y ∙ g.plugin_configs a x y;
    themes = λ a x y. f.themes a x y ∙ g.themes a x y;
    widgets = λ a x y. f.widgets a x y ∙ g.widgets a x y;
    foreign = λ a x y. f.foreign a x y ∙ g.foreign a x y;
  }

  pub Extends-refl : (h : Heap t) → Extends t h h
  Extends-refl h = record {
    grows = omega arith;
    agree = record {
      conditions = λ a x y. refl;
      plugin_configs = λ a x y. refl;
      themes = λ a x y. refl;
      widgets = λ a x y. refl;
      foreign = λ a x y. refl;
    };
  }

  pub Extends-trans : {h k l : Heap t} → Extends t h k → Extends t k l → Extends t h l
  Extends-trans g f = record {
    grows = omega (arith, g.grows, f.grows);
    agree = Agree-trans g.agree (Agree-narrow (omega arith) (omega (arith, g.grows)) f.agree);
  }

  module _ {V View : Type 0} {c : Copier t V View} (deep : IsDeep t c) {h : Heap t} {v : V} where
    -- A value is unchanged by what only allocates.
    pub Extends-Within :
        {k : Heap t}
        → Extends t h k
        → c.Within 0 h.next h v
        → (c.view k v ≡ c.view h v) × c.Within 0 k.next k v
    Extends-Within {k} e inside =
        let (same, still) = deep.kept 0 h.next h k v inside e.agree in
        (same, deep.widens 0 h.next 0 k.next k v (omega arith) e.grows still)

-- What comes by allocation alone, step by step.
pub ruleset extensions = (Extends-refl, Extends-trans)
