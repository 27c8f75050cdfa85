-- ===== src/Tests/Copying.antt =====
-- Deep copies in a store with one Widget, whose metadata is its name.
use dynamic_crd_watch.Base.{String, ◌≡◌, refl, none, some, [], ◌∷◌, arith, update}
use dynamic_crd_watch.DeepCopy.Types.{MetaTypes, at, WidgetStatus, Widget, Heap}
use dynamic_crd_watch.DeepCopy.Copier.{Agree, Copier, IsDeep, Extends-refl}
use dynamic_crd_watch.DeepCopy.Generated.{MetaCopies, widget_status, widget}
use dynamic_crd_watch.DeepCopy.Pointers.{widget_object, widget_deep_copy_object}
use dynamic_crd_watch.DeepCopy.Deep.{AreDeep}
use dynamic_crd_watch.DeepCopy.Separate.{widgets, deep_copy_of, AreApart, deep_copy_of-AreApart}
use dynamic_crd_watch.DeepCopy.Snapshot.{take_snapshots, take_snapshots-kept}

abbrev plain : MetaTypes
plain = record { ObjectMeta = String; ListMeta = String; Condition = String; Foreign = Unit {0} }

abbrev flat : Copier plain String String
flat = record { copy = λ v h. (v, h); view = λ h v. v; Within = λ lo hi h v. Unit {0} }

abbrev copies : MetaCopies plain
copies = record {
  ObjectView = String;
  ListView = String;
  ConditionView = String;
  object_meta = flat;
  list_meta = flat;
  condition = flat;
}

flat-IsDeep : IsDeep plain flat
flat-IsDeep = record {
  kept = λ lo hi h k v inside g. (refl, tt);
  widens = λ lo hi lo' hi' h v l u inside. tt;
  extends = λ h v inside. Extends-refl h;
  reads_same = λ h v inside. refl;
  fresh = λ h v inside. tt;
}

copies-AreDeep : AreDeep copies
copies-AreDeep = record {
  object_meta = flat-IsDeep;
  list_meta = flat-IsDeep;
  condition = flat-IsDeep;
}

abbrev before : Heap plain
before = record {
  next = 1;
  conditions = λ _. "PluginReady=False" ∷ [];
  plugin_configs = λ _. [];
  themes = λ _. [];
  widgets = λ _. [];
  foreign = λ _. tt;
}

abbrev parent : Widget plain
parent = record {
  type_meta = record { kind = "Widget"; api_version = "demo.example.com/v1alpha1" };
  object_meta = "dark";
  spec = record { plugin_ref = "dark"; theme_ref = "" };
  status = record { observed_generation = 1; conditions = at 0 };
}

-- The store with the snapshots, and the same once the conditions of the Widget are set in place.
abbrev taken : Heap plain
taken = (take_snapshots copies parent before).2

abbrev marked : Heap plain
marked = record taken { conditions = update taken.conditions 0 ("PluginReady=True" ∷ []) }

marked-Agree : Agree plain 1 taken.next taken marked
marked-Agree = record {
  conditions = λ a l u. ground arith;
  plugin_configs = λ a l u. refl;
  themes = λ a l u. refl;
  widgets = λ a l u. refl;
  foreign = λ a l u. refl;
}

deep_copy_of-AreApart_example :
    (deep_copy_of copies widgets none before ≡ (none, before))
    × (copied : Widget plain) × (h' : Heap plain) × (deep_copy_of copies widgets
          (some parent)
          before
        ≡ (some copied, h'))
    × AreApart (widget copies) before parent copied h'
    × ((widget_deep_copy_object copies none before ≡ (none, before))
        × (widget_deep_copy_object copies (some parent) before ≡ (some (widget_object copied), h')))
deep_copy_of-AreApart_example =
    deep_copy_of-AreApart copies copies-AreDeep widgets parent before
      (tt, (omega arith, omega arith, (tt, tt)))

take_snapshots-kept_example :
    (old_status : WidgetStatus) × (base : Widget plain) × ((take_snapshots copies parent before).0
      ≡ some old_status)
    × ((take_snapshots copies parent before).1 ≡ some base)
    × ((widget_status copies).view marked old_status ≡ (1, some ("PluginReady=False" ∷ [])))
    × ((widget copies).view marked base ≡ (widget copies).view before parent)
take_snapshots-kept_example =
    take_snapshots-kept copies copies-AreDeep parent before marked
      (tt, (omega arith, omega arith, (tt, tt))) marked-Agree
