-- ===== src/Tests/Builds.antt =====
-- A run of TestRace in which the tests fail.
use mod_sec_intl_wace_lib.Base.{All, [], external, none, ok, refl, some, ◌∷◌, ◌≡◌}
use mod_sec_intl_wace_lib.Build.{
  Mage, Tools, build_plugins, object_path, plugin_dirs, plugins, plugins_race,
}
use mod_sec_intl_wace_lib.Build.Targets.{race_args, test_race}
use mod_sec_intl_wace_lib.Build.FlagsLaws.{AreBuilt, test_race-AreBuilt}

-- Each directory has one plugin, everything compiles, and the tests fail.
abbrev tools : Tools
tools = record {
  sources = λ dir. ok ("plugin.go" ∷ []);
  objects = λ dir built. ok ("plugin.so" ∷ []);
  compile = λ flags src. none;
  run_tests = λ args built. some (external "FAIL");
  remove = λ path. none;
  create = λ path. none;
  getenv = λ key. "";
}

abbrev fresh : Mage
fresh = record { built = []; plain_run = none; cover_run = none }

raced-built : (plugins_race tools fresh).1 ≡ none
unfolding build_plugins
raced-built = refl

plain-built : (plugins tools (plugins_race tools fresh).0).1 ≡ none
unfolding build_plugins
plain-built = refl

test_race-AreBuilt_example :
    All (AreBuilt tools ("-race" ∷ []) (plugins_race tools fresh).0.built) plugin_dirs
    × ((test_race tools fresh).1 ≡ tools.run_tests race_args (plugins_race tools fresh).0.built)
    × All (AreBuilt tools [] (test_race tools fresh).0.built) plugin_dirs
test_race-AreBuilt_example = test_race-AreBuilt tools fresh raced-built plain-built

-- The path of a plugin.
object_path_run : object_path "testdata/plugins/model/a.go" ≡ "testdata/plugins/model/a.so"
unfolding object_path
object_path_run = refl
