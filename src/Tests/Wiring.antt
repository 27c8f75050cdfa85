-- ===== src/Tests/Wiring.antt =====
-- Both set-ups of the controller over the manager that counts its caches.
use dynamic_crd_watch.Base.{ℕ, ◌≡◌, refl, none, some, [], ◌∷◌, codes}
use dynamic_crd_watch.Base.Failing.{ok}
use dynamic_crd_watch.Builder.{
  Built, build, assemble, validate, choose_crd_cache, create_object_cache, choose_handler,
  validate_crd_name,
}
use dynamic_crd_watch.Registry.{
  Setup, register_on, has, register, enlist, new_crd_cache, new_registry, find,
}
use dynamic_crd_watch.Controller.Setup.{
  plugin_config_crd_name, theme_crd_name, Wiring, index_all, plugin_watch_builder,
  theme_watch_builder, setup_with_manager, plugin_handle_builder, theme_handle_builder,
  setup_on_registry, on_new_registry, setup_using_registry,
}
use dynamic_crd_watch.Controller.Wired.{
  IsWatch, plugin_builder, theme_builder, setup_with_manager-IsWatch,
}
use dynamic_crd_watch.Controller.Enrolled.{IsSetUp, setup_using_registry-IsSetUp}
use dynamic_crd_watch.Controller.Succeeds.{IsFine}
use dynamic_crd_watch.Tests.Building.{counting, no_upper}

abbrev pub wiring : Wiring counting
wiring = record {
  plugin_config_to_widgets = "plugins";
  theme_to_widgets = "themes";
  all_widgets_with_plugin_ref = "all plugins";
  all_widgets_with_theme_ref = "all themes";
  index_field = λ field values s. (none, s);
  complete = λ sources s. (none, s);
}

pub wiring-IsFine : IsFine wiring
wiring-IsFine = record {
  creates = λ opts s. (s, refl);
  adds = λ c s. refl;
  known = refl;
  indexes = λ field values s. refl;
  completes = λ sources s. refl;
}

abbrev plugins : Built counting
plugins =
    assemble counting no_upper (plugin_builder no_upper wiring [] (some 0)) "all plugins" 0 1
      "plugins"

abbrev themes : Built counting
themes =
    assemble counting no_upper (theme_builder no_upper wiring [] (some 0)) "all themes" 0 2 "themes"

sets_up : setup_with_manager no_upper wiring 0 ≡ (ok (plugins, themes), 3)
unfolding setup_with_manager plugin_watch_builder theme_watch_builder index_all new_crd_cache build
    validate validate_crd_name choose_crd_cache create_object_cache choose_handler
sets_up = refl

setup_with_manager-IsWatch_example :
    (c : ℕ) × IsWatch plugin_config_crd_name "plugins" "all plugins"
      (codes "PluginconfigsAvailable")
      c
      plugins
    × IsWatch theme_crd_name "themes" "all themes" (codes "ThemesAvailable") c themes
setup_with_manager-IsWatch_example = setup_with_manager-IsWatch no_upper wiring 0 sets_up

abbrev plugin_handle : Built counting
plugin_handle =
    assemble counting no_upper
      (plugin_builder no_upper wiring (codes "PluginConfigAvailable") (some 0)) "all plugins" 0 1
      "plugins"

abbrev theme_handle : Built counting
theme_handle =
    assemble counting no_upper (theme_builder no_upper wiring (codes "ThemeAvailable") (some 0))
      "all themes" 0 2 "themes"

abbrev registered : Setup counting
registered = record {
  manager = 3;
  registry = record {
    crd_cache = 0;
    watchers = (theme_crd_name, theme_handle) ∷ (plugin_config_crd_name, plugin_handle) ∷ [];
  };
  sources = theme_handle ∷ plugin_handle ∷ [];
}

sets_up_registry :
    setup_using_registry no_upper wiring 0 ≡ (ok ((plugin_handle, theme_handle), registered), 3)
unfolding setup_using_registry setup_on_registry on_new_registry plugin_handle_builder
    theme_handle_builder index_all new_registry new_crd_cache register_on enlist has register find
    build validate validate_crd_name choose_crd_cache create_object_cache choose_handler
sets_up_registry = refl

setup_using_registry-IsSetUp_example : IsSetUp no_upper wiring plugin_handle theme_handle registered
setup_using_registry-IsSetUp_example =
    setup_using_registry-IsSetUp no_upper wiring 0 sets_up_registry
