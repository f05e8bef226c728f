-- ===== src/Build/Targets.antt =====
-- magefiles/magefile.go: the targets that run tests and benchmarks, and Clean.
use mod_sec_intl_wace_lib.Base.{
  Error, List, Map, Option, String, [], erase, err, if◌then◌else◌, join, none, ok, some, ◌=ₛ◌, ◌∷◌,
}
use Prim.Native.String
use mod_sec_intl_wace_lib.Build.{
  Mage, Tools, build_plugins, plugin_dirs, plugins, plugins_cover, plugins_race,
}

-- `mg.Deps(Plugins)`; its error ends the run.
unfoldable pub deps_plain : Tools → Mage → Mage × Option Error
unfolding build_plugins
deps_plain t m = elim m.plain_run [
  | some e ↦ (m, e)
  | none ↦ let (m', e) = plugins t m in (record m' { plain_run = some e }, e)
]

-- `mg.Deps(pluginsCover)`
unfoldable pub deps_cover : Tools → Mage → Mage × Option Error
unfolding build_plugins
deps_cover t m = elim m.cover_run [
  | some e ↦ (m, e)
  | none ↦ let (m', e) = plugins_cover t m in (record m' { cover_run = some e }, e)
]

-- What follows a step that may fail.
abbrev pub if_done : Mage × Option Error → (Mage → Mage × Option Error) → Mage × Option Error
if_done (m, none) f = f m
if_done (m, some e) f = (m, some e)

-- `Test`
unfoldable pub test : Tools → Mage → Mage × Option Error
unfolding deps_plain
test t m =
    if_done (deps_plain t m)
      λ m'. (m', t.run_tests ("test" ∷ "./..." ∷ "-v" ∷ "-count=1" ∷ []) m'.built)

-- `TestCoverage`
unfoldable pub test_coverage : Tools → Mage → Mage × Option Error
unfolding deps_cover
test_coverage t m = if_done (deps_cover t m) λ m'. (
  m',
  t.run_tests ("test" ∷ "-cover" ∷ "./..." ∷ "-v" ∷ "-count=1" ∷ "-coverprofile=coverage.out" ∷ [])
      m'.built,
)

abbrev pub race_args : List String
race_args = "test" ∷ "-race" ∷ "./..." ∷ "-count=1" ∷ []

-- `TestRace`
unfoldable pub test_race : Tools → Mage → Mage × Option Error
unfolding build_plugins join
test_race t m =
    if_done (plugins_race t m)
      λ m'. let (m'', e) = plugins t m' in (m'', join (t.run_tests race_args m'.built) e)

-- `envOr`
unfoldable pub env_or : Tools → String → String → String
env_or t key other = let v = t.getenv key in if v =ₛ "" then other else v

-- `Bench`
unfoldable pub bench : Tools → Mage → Mage × Option Error
unfolding deps_plain env_or
bench t m = if_done (deps_plain t m) λ m'. elim (t.create (env_or t "BENCH_OUT" "bench.txt")) [
  | some e ↦ (m', some e)
  | none ↦ (
    m',
    t.run_tests
        ("test"
          ∷ "./..."
          ∷ "-run=^$"
          ∷ String.◌++◌ "-bench=" (env_or t "BENCH" ".")
          ∷ "-benchmem"
          ∷ String.◌++◌ "-count=" (env_or t "BENCH_COUNT" "10")
          ∷ "-timeout=0"
          ∷ [])
        m'.built,
  )
]

-- The inner loop of Clean.
unfoldable pub remove_all :
    Tools → List String → Map (List String) → Map (List String) × Option Error
remove_all t [] built = (built, none)
remove_all t (path ∷ paths) built =
    let rest = remove_all t paths (erase path built) in
    elim (t.remove path) [ some e ↦ (built, some e) | none ↦ rest ]

unfoldable pub clean_dirs :
    Tools → List String → Map (List String) → Map (List String) × Option Error
unfolding remove_all
clean_dirs t [] built = (built, none)
clean_dirs t (dir ∷ dirs) built = elim (t.objects dir built) [
  | err e ↦ (built, some e)
  | ok paths ↦
      let (built', e) = remove_all t paths built in
      let rest = clean_dirs t dirs built' in elim e [ some x ↦ (built', some x) | none ↦ rest ]
]

-- `Clean`
unfoldable pub clean : Tools → Mage → Mage × Option Error
unfolding clean_dirs
clean t m = let (built, e) = clean_dirs t plugin_dirs m.built in (record m { built = built }, e)
