-- ===== src/DeepCopy/Arenas.antt =====
-- The blocks of the types of api/v1alpha1 in one store.
use dynamic_crd_watch.Base.{refl, arith}
use dynamic_crd_watch.DeepCopy.Types.{MetaTypes}
use dynamic_crd_watch.DeepCopy.Slices.{IsArena}
use dynamic_crd_watch.DeepCopy.Generated.{
  condition_blocks, plugin_config_blocks, theme_blocks, widget_blocks,
}

module _ {t : MetaTypes} where
  -- The blocks of different types are apart, and those of one type at different addresses.
  pub condition_blocks-IsArena : IsArena (condition_blocks {t = t})
  condition_blocks-IsArena = record {
    block-store = λ a l h. ground arith;
    keeps_next = λ a l h. refl;
    elsewhere = λ lo hi a l h out. record {
      conditions = λ b x y. ground arith;
      plugin_configs = λ b x y. ground arith;
      themes = λ b x y. ground arith;
      widgets = λ b x y. ground arith;
      foreign = λ b x y. ground arith;
    };
    agreed = λ lo hi a h k g l u. g.conditions a l u;
  }

  pub plugin_config_blocks-IsArena : IsArena (plugin_config_blocks {t = t})
  plugin_config_blocks-IsArena = record {
    block-store = λ a l h. ground arith;
    keeps_next = λ a l h. refl;
    elsewhere = λ lo hi a l h out. record {
      conditions = λ b x y. ground arith;
      plugin_configs = λ b x y. ground arith;
      themes = λ b x y. ground arith;
      widgets = λ b x y. ground arith;
      foreign = λ b x y. ground arith;
    };
    agreed = λ lo hi a h k g l u. g.plugin_configs a l u;
  }

  pub theme_blocks-IsArena : IsArena (theme_blocks {t = t})
  theme_blocks-IsArena = record {
    block-store = λ a l h. ground arith;
    keeps_next = λ a l h. refl;
    elsewhere = λ lo hi a l h out. record {
      conditions = λ b x y. ground arith;
      plugin_configs = λ b x y. ground arith;
      themes = λ b x y. ground arith;
      widgets = λ b x y. ground arith;
      foreign = λ b x y. ground arith;
    };
    agreed = λ lo hi a h k g l u. g.themes a l u;
  }

  pub widget_blocks-IsArena : IsArena (widget_blocks {t = t})
  widget_blocks-IsArena = record {
    block-store = λ a l h. ground arith;
    keeps_next = λ a l h. refl;
    elsewhere = λ lo hi a l h out. record {
      conditions = λ b x y. ground arith;
      plugin_configs = λ b x y. ground arith;
      themes = λ b x y. ground arith;
      widgets = λ b x y. ground arith;
      foreign = λ b x y. ground arith;
    };
    agreed = λ lo hi a h k g l u. g.widgets a l u;
  }
