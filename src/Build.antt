-- ===== src/Build.antt =====
-- magefiles/magefile.go: the targets of the build, with the object files of the test plugins.
use mod_sec_intl_wace_lib.Base.{
  Error, List, Map, Option, Result, String, [], err, if◌then◌else◌, insert, leb, none, ok, some,
  ◌&&◌, ◌++◌, ◌-◌, ◌=ₛ◌, ◌∷◌,
}
use Prim.Native.String
use Prim.Native.String.{len, slice}
pub mod Targets
pub mod FlagsLaws

-- The tools: `filepath.Glob` of the `.go` files of a directory, and of its `.so` files among those that
-- are there; the compiler, with its flags; `go test`, with its arguments, and the `.so` files that the
-- tests load; `os.Remove`; `os.Create`; and the environment, where a variable that is not set is empty.
pub record Tools : Type 0 where
  pub sources : String → Result (List String)
  pub objects : String → Map (List String) → Result (List String)
  pub compile : List String → String → Option Error
  pub run_tests : List String → Map (List String) → Option Error
  pub remove : String → Option Error
  pub create : String → Option Error
  pub getenv : String → String

-- `strings.TrimSuffix`
unfoldable pub trim_suffix : String → String → String
trim_suffix s suffix =
    if leb (len suffix) (len s) && slice s (len s - len suffix) (len s) =ₛ suffix
    then slice s 0 (len s - len suffix)
    else s

-- `strings.TrimSuffix(src, ".go") + ".so"`
unfoldable pub object_path : String → String
unfolding trim_suffix
object_path src = String.◌++◌ (trim_suffix src ".go") ".so"

-- The object files, each with the flags that it was built with, and the results of the two dependencies
-- that have been run: `mg.Deps` runs a function once.
pub record Mage : Type 0 where
  pub built : Map (List String)
  pub plain_run : Option (Option Error)
  pub cover_run : Option (Option Error)

-- The inner loop of buildPlugins.
unfoldable pub build_sources :
    Tools → List String → List String → Map (List String) → Map (List String) × Option Error
unfolding object_path
build_sources t flags [] built = (built, none)
build_sources t flags (src ∷ srcs) built =
    let rest = build_sources t flags srcs (insert (object_path src) flags built) in
    elim (t.compile flags src) [ some e ↦ (built, some e) | none ↦ rest ]

-- The outer loop.
unfoldable pub build_dirs :
    Tools → List String → List String → Map (List String) → Map (List String) × Option Error
unfolding build_sources
build_dirs t flags [] built = (built, none)
build_dirs t flags (dir ∷ dirs) built = elim (t.sources dir) [
  | err e ↦ (built, some e)
  | ok srcs ↦
      let (built', e) = build_sources t flags srcs built in
      let rest = build_dirs t flags dirs built' in
      elim e [ some x ↦ (built', some x) | none ↦ rest ]
]

abbrev pub plugin_dirs : List String
plugin_dirs = "model" ∷ "decision" ∷ []

-- `buildPlugins`
unfoldable pub build_plugins : Tools → List String → Mage → Mage × Option Error
unfolding build_dirs
build_plugins t flags m =
    let (built, e) = build_dirs t flags plugin_dirs m.built in (record m { built = built }, e)

-- `Plugins`, `pluginsCover`, `pluginsRace`
abbrev pub plugins : Tools → Mage → Mage × Option Error
plugins t m = build_plugins t [] m

abbrev pub plugins_cover : Tools → Mage → Mage × Option Error
plugins_cover t m = build_plugins t ("-cover" ∷ []) m

abbrev pub plugins_race : Tools → Mage → Mage × Option Error
plugins_race t m = build_plugins t ("-race" ∷ []) m
