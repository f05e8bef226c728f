-- ===== src/Build/FlagsLaws.antt =====
-- magefiles/magefile.go: the flags of the plugins that a target leaves.
use mod_sec_intl_wace_lib.Base.{
  =ₛ_iff, All, Error, List, Map, Option, Option-cases, Result-cases, String, [], ap, arith, inl,
  inr, insert, join, lookup, lookup-insert, none, ok, refl, some, subst, sym, ◌∙◌, ◌∷◌, ◌≡◌,
}
use mod_sec_intl_wace_lib.Build.{
  Mage, Tools, build_dirs, build_plugins, build_sources, object_path, plugin_dirs, plugins,
  plugins_race,
}
use mod_sec_intl_wace_lib.Build.Targets.{if_done, race_args, test_race}

-- The object file of a source was built with the flags.
abbrev pub HasFlags : List String → Map (List String) → String → Type 0
HasFlags flags built src = lookup (object_path src) built ≡ some flags

-- The object files of all the sources of a directory were.
abbrev pub AreBuilt : Tools → List String → Map (List String) → String → Type 0
AreBuilt t flags built dir =
    (srcs : List String) × (t.sources dir ≡ ok srcs) × All (HasFlags flags built) srcs

module _ (t : Tools) (flags : List String) where
  insert-HasFlags :
      (path src : String) (built : Map (List String))
      → HasFlags flags built src
      → HasFlags flags (insert path flags built) src
  insert-HasFlags path src built h =
      ground (arith, lookup-insert path (object_path src) flags built, h)

  -- What has the flags keeps them.
  build_sources-HasFlags :
      (srcs : List String) (built : Map (List String)) (src : String)
      → HasFlags flags built src
      → HasFlags flags (build_sources t flags srcs built).0 src
  unfolding build_sources
  build_sources-HasFlags [] built src h = h
  build_sources-HasFlags (s ∷ srcs) built src h = elim (Option-cases (t.compile flags s)) [
    | inr (e, refused) ↦ rw (refused, build_sources) h
    | inl fine ↦
        rw (fine, build_sources)
          (build_sources-HasFlags srcs (insert (object_path s) flags built) src
            (insert-HasFlags (object_path s) src built h))
  ]

  build_dirs-HasFlags :
      (dirs : List String) (built : Map (List String)) (src : String)
      → HasFlags flags built src
      → HasFlags flags (build_dirs t flags dirs built).0 src
  unfolding build_dirs
  build_dirs-HasFlags [] built src h = h
  build_dirs-HasFlags (dir ∷ dirs) built src h = elim (Result-cases (t.sources dir)) [
    | inl (e, refused) ↦ rw (refused, build_dirs) h
    | inr (srcs, listed) ↦
        let h' = build_sources-HasFlags srcs built src h in
        rw (listed, build_dirs)
          (elim (Option-cases (build_sources t flags srcs built).1) [
            | inr (e, stopped) ↦ rw (stopped, build_dirs) h'
            | inl fine ↦
                rw (fine, build_dirs)
                  (build_dirs-HasFlags dirs (build_sources t flags srcs built).0 src h')
          ])
  ]

  build_sources-next :
      (src : String) (srcs : List String) (built : Map (List String))
      → t.compile flags src ≡ none
      → build_sources t flags (src ∷ srcs) built
        ≡ build_sources t flags srcs (insert (object_path src) flags built)
  unfolding build_sources
  build_sources-next src srcs built fine = rw (fine, build_sources) refl

  build_dirs-next :
      (dir : String) (srcs dirs : List String) (built : Map (List String))
      → t.sources dir ≡ ok srcs
      → (build_sources t flags srcs built).1 ≡ none
      → build_dirs t flags (dir ∷ dirs) built
        ≡ build_dirs t flags dirs (build_sources t flags srcs built).0
  unfolding build_dirs
  build_dirs-next dir srcs dirs built listed fine = rw (listed, build_dirs) (rw fine refl)

  -- A build without an error leaves every source with the flags.
  build_sources-All :
      (srcs : List String) (built : Map (List String))
      → (build_sources t flags srcs built).1 ≡ none
      → All (HasFlags flags (build_sources t flags srcs built).0) srcs
  unfolding build_sources
  build_sources-All [] built = λ h. tt
  build_sources-All (s ∷ srcs) built = elim (Option-cases (t.compile flags s)) [
    | inr (e, refused) ↦ rw (refused, build_sources) (λ h. cc)
    | inl fine ↦
        let built' = insert (object_path s) flags built in
        subst (λ o. o.1 ≡ none → All (HasFlags flags o.0) (s ∷ srcs))
          (sym (build_sources-next s srcs built fine))
          (λ h. (
            build_sources-HasFlags srcs built' s (
                ground (
                  arith,
                  lookup-insert (object_path s) (object_path s) flags built,
                  =ₛ_iff (object_path s) (object_path s),
                )),
            build_sources-All srcs built' h,
          ))
  ]

  All-HasFlags :
      (srcs dirs : List String) (built : Map (List String))
      → All (HasFlags flags built) srcs
      → All (HasFlags flags (build_dirs t flags dirs built).0) srcs
  All-HasFlags [] dirs built h = tt
  All-HasFlags (s ∷ srcs) dirs built (h, hs) =
      (build_dirs-HasFlags dirs built s h, All-HasFlags srcs dirs built hs)

  build_dirs-AreBuilt :
      (dirs : List String) (built : Map (List String))
      → (build_dirs t flags dirs built).1 ≡ none
      → All (AreBuilt t flags (build_dirs t flags dirs built).0) dirs
  unfolding build_dirs
  build_dirs-AreBuilt [] built = λ h. tt
  build_dirs-AreBuilt (dir ∷ dirs) built = elim (Result-cases (t.sources dir)) [
    | inl (e, refused) ↦ rw (refused, build_dirs) (λ h. cc)
    | inr (srcs, listed) ↦ elim (Option-cases (build_sources t flags srcs built).1) [
      | inr (e, stopped) ↦ λ h. ground (arith, h, listed, stopped)
      | inl fine ↦
          let built' = (build_sources t flags srcs built).0 in
          subst (λ o. o.1 ≡ none → All (AreBuilt t flags o.0) (dir ∷ dirs))
            (sym (build_dirs-next dir srcs dirs built listed fine))
            (λ h. (
              (srcs, listed, All-HasFlags srcs dirs built' (build_sources-All srcs built fine)),
              build_dirs-AreBuilt dirs built' h,
            ))
    ]
  ]

if_done-none :
    (o : Mage × Option Error) (f : Mage → Mage × Option Error) → o.1 ≡ none → if_done o f ≡ f o.0
if_done-none (m, none) f h = refl
if_done-none (m, some e) f h = cc

join-none : (a b : Option Error) → b ≡ none → join a b ≡ a
unfolding join
join-none none b h = h
join-none (some e) none h = refl
join-none (some e) (some x) h = cc

test_race-none :
    (t : Tools) (m : Mage)
    → (plugins_race t m).1 ≡ none
    → (plugins t (plugins_race t m).0).1 ≡ none
    → ((test_race t m).0 ≡ (plugins t (plugins_race t m).0).0)
      × ((test_race t m).1 ≡ t.run_tests race_args (plugins_race t m).0.built)
unfolding test_race
test_race-none t m raced plain =
    let after : Mage → Mage × Option Error =
      λ m'. ((plugins t m').0, join (t.run_tests race_args m'.built) (plugins t m').1) in
    let same : test_race t m ≡ after (plugins_race t m).0 =
      if_done-none (plugins_race t m) after raced in
    (
      ap (λ (o : Mage × Option Error). o.0) same,
      ap (λ (o : Mage × Option Error). o.1) same
          ∙ join-none (t.run_tests race_args (plugins_race t m).0.built) _ plain,
    )

plugins-AreBuilt :
    (t : Tools) (flags : List String) (m : Mage)
    → (build_plugins t flags m).1 ≡ none
    → All (AreBuilt t flags (build_plugins t flags m).0.built) plugin_dirs
unfolding build_plugins
plugins-AreBuilt t flags m h = build_dirs-AreBuilt t flags plugin_dirs m.built h

-- When both builds of TestRace succeed, the tests run with every plugin built with the race
-- detector, the error is that of the tests, and behind them every plugin is built without it, also
-- if the tests have failed.
pub test_race-AreBuilt :
    (t : Tools) (m : Mage)
    → (plugins_race t m).1 ≡ none
    → (plugins t (plugins_race t m).0).1 ≡ none
    → All (AreBuilt t ("-race" ∷ []) (plugins_race t m).0.built) plugin_dirs
      × ((test_race t m).1 ≡ t.run_tests race_args (plugins_race t m).0.built)
      × All (AreBuilt t [] (test_race t m).0.built) plugin_dirs
test_race-AreBuilt t m raced plain =
    let (files, result) = test_race-none t m raced plain in
    (
      plugins-AreBuilt t ("-race" ∷ []) m raced,
      result,
      rw files (plugins-AreBuilt t [] (plugins_race t m).0 plain),
    )
