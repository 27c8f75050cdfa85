-- ===== src/DeepCopy/Deep.antt =====
-- Every `DeepCopyInto` of api/v1alpha1/zz_generated.deepcopy.go is a deep copy, where those of package
-- meta/v1 are.
use dynamic_crd_watch.Base.{refl}
use dynamic_crd_watch.DeepCopy.Types.{MetaTypes}
use dynamic_crd_watch.DeepCopy.Copier.{IsDeep, extensions}
use dynamic_crd_watch.DeepCopy.Blocks.{slice-IsDeep}
use dynamic_crd_watch.DeepCopy.Generated.{
  MetaCopies, condition_blocks, plugin_config_blocks, theme_blocks, widget_blocks, plugin_config,
  plugin_config_list, plugin_config_spec, theme, theme_list, theme_spec, widget, widget_list,
  widget_spec, widget_status, plugin_config_into, plugin_config_list_into, plugin_config_spec_into,
  theme_into, theme_list_into, theme_spec_into, widget_spec_into, widget_into, widget_list_into,
  widget_status_into,
}
use dynamic_crd_watch.DeepCopy.Fields.{both-IsDeep, through-IsDeep}
use dynamic_crd_watch.DeepCopy.Arenas.{
  condition_blocks-IsArena, plugin_config_blocks-IsArena, theme_blocks-IsArena,
  widget_blocks-IsArena,
}

-- The copies of package meta/v1 are deep, as documented.
pub record AreDeep {t : MetaTypes} (m : MetaCopies t) : Type 0 where
  pub object_meta : IsDeep t m.object_meta
  pub list_meta : IsDeep t m.list_meta
  pub condition : IsDeep t m.condition

module _ {t : MetaTypes} (m : MetaCopies t) (deep : AreDeep m) where
  pub plugin_config-IsDeep : IsDeep t (plugin_config m)
  unfolding plugin_config_into
  plugin_config-IsDeep =
      through-IsDeep (λ v. v.object_meta) (λ v x. record v { object_meta = x })
        (λ v x. (v.type_meta, x, v.spec)) deep.object_meta (λ v x. refl) (λ v x. refl)

  pub widget_status-IsDeep : IsDeep t (widget_status m)
  unfolding widget_status_into
  widget_status-IsDeep =
      through-IsDeep (λ v. v.conditions) (λ v x. record v { conditions = x })
        (λ v x. (v.observed_generation, x))
        (slice-IsDeep deep.condition condition_blocks condition_blocks-IsArena) (λ v x. refl)
        (λ v x. refl)

  pub widget-IsDeep : IsDeep t (widget m)
  unfolding widget_into
  widget-IsDeep =
      through-IsDeep (λ v. (v.object_meta, v.status))
        (λ v x. record v { object_meta = x.0; status = x.1 })
        (λ v x. (v.type_meta, x.0, v.spec, x.1)) (both-IsDeep deep.object_meta widget_status-IsDeep)
        (λ v x. refl) (λ v x. refl)

  pub theme-IsDeep : IsDeep t (theme m)
  unfolding theme_into
  theme-IsDeep =
      through-IsDeep (λ v. v.object_meta) (λ v x. record v { object_meta = x })
        (λ v x. (v.type_meta, x, v.spec)) deep.object_meta (λ v x. refl) (λ v x. refl)

  pub plugin_config_list-IsDeep : IsDeep t (plugin_config_list m)
  unfolding plugin_config_list_into
  plugin_config_list-IsDeep =
      through-IsDeep (λ v. (v.list_meta, v.items))
        (λ v x. record v { list_meta = x.0; items = x.1 }) (λ v x. (v.type_meta, x.0, x.1))
        (both-IsDeep deep.list_meta
          (slice-IsDeep plugin_config-IsDeep plugin_config_blocks plugin_config_blocks-IsArena))
        (λ v x. refl) (λ v x. refl)

  pub theme_list-IsDeep : IsDeep t (theme_list m)
  unfolding theme_list_into
  theme_list-IsDeep =
      through-IsDeep (λ v. (v.list_meta, v.items))
        (λ v x. record v { list_meta = x.0; items = x.1 }) (λ v x. (v.type_meta, x.0, x.1))
        (both-IsDeep deep.list_meta (slice-IsDeep theme-IsDeep theme_blocks theme_blocks-IsArena))
        (λ v x. refl) (λ v x. refl)

  pub widget_list-IsDeep : IsDeep t (widget_list m)
  unfolding widget_list_into
  widget_list-IsDeep =
      through-IsDeep (λ v. (v.list_meta, v.items))
        (λ v x. record v { list_meta = x.0; items = x.1 }) (λ v x. (v.type_meta, x.0, x.1))
        (both-IsDeep deep.list_meta
          (slice-IsDeep widget-IsDeep widget_blocks widget_blocks-IsArena))
        (λ v x. refl) (λ v x. refl)

  pub plugin_config_spec-IsDeep : IsDeep t (plugin_config_spec m)
  unfolding plugin_config_spec_into
  plugin_config_spec-IsDeep = record {
    kept = λ lo hi h k v inside g. (refl, tt);
    widens = λ lo hi lo' hi' h v l u inside. tt;
    extends = λ h v inside. search extensions;
    reads_same = λ h v inside. refl;
    fresh = λ h v inside. tt;
  }

  pub theme_spec-IsDeep : IsDeep t (theme_spec m)
  unfolding theme_spec_into
  theme_spec-IsDeep = record {
    kept = λ lo hi h k v inside g. (refl, tt);
    widens = λ lo hi lo' hi' h v l u inside. tt;
    extends = λ h v inside. search extensions;
    reads_same = λ h v inside. refl;
    fresh = λ h v inside. tt;
  }

  pub widget_spec-IsDeep : IsDeep t (widget_spec m)
  unfolding widget_spec_into
  widget_spec-IsDeep = record {
    kept = λ lo hi h k v inside g. (refl, tt);
    widens = λ lo hi lo' hi' h v l u inside. tt;
    extends = λ h v inside. search extensions;
    reads_same = λ h v inside. refl;
    fresh = λ h v inside. tt;
  }
