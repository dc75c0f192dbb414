-- ===== src/Packs/Frameworks.antt =====
-- scripts/pack_lib.py: the frameworks that a Java repository is found to use, and the instructions of
-- other agents that collide with a pack.
pub mod Laws
use deslop.Prelude.{
  ℕ, Bool, true, false, List, [], ◌∷◌, ◌++◌, Text, codes, Option, none, some, any, keep, contains,
  fromkeys, if◌then◌else◌, list_eq, nat_eq,
}
use deslop.Packs.{Pack, or_nil}
use deslop.Checkers.Run.{Repo}

abbrev pub spring_pom_tokens : List Text
spring_pom_tokens = codes "springframework" ∷ codes "spring-boot" ∷ []

abbrev pub jpa_pom_tokens : List Text
jpa_pom_tokens = codes "data-jpa" ∷ codes "hibernate" ∷ codes "jakarta.persistence" ∷ []

abbrev pub spring_gradle_tokens : List Text
spring_gradle_tokens = codes "org.springframework" ∷ codes "spring-boot" ∷ []

abbrev pub jpa_gradle_tokens : List Text
jpa_gradle_tokens = codes "data-jpa" ∷ codes "hibernate" ∷ []

abbrev pub override_filenames : List Text
override_filenames = codes ".engineering-rules.yaml" ∷ codes ".engineering-rules.yml" ∷ []

abbrev pub spring : Text
spring = codes "spring"

abbrev pub jpa : Text
jpa = codes "jpa"

-- The two tests on the text of a build file.
unfoldable pub signals : List Text → List Text → Text → List Text
signals spring_tokens jpa_tokens text =
    (if any (contains text) spring_tokens then spring ∷ [] else [])
    ++ (if any (contains text) jpa_tokens then jpa ∷ [] else [])

abbrev pub read_signals : List Text → List Text → Bool → Option Text → List Text
read_signals spring_tokens jpa_tokens false text = []
read_signals spring_tokens jpa_tokens true none = []
read_signals spring_tokens jpa_tokens true (some text) = signals spring_tokens jpa_tokens text

module _ (repo : Repo) where
  -- A file that is not there or cannot be read signals nothing.
  unfoldable pub file_signals : List Text → List Text → Text → List Text
  unfolding signals
  file_signals spring_tokens jpa_tokens path =
      read_signals spring_tokens jpa_tokens (repo.is_file path) (repo.read path)

  unfoldable pub build_signals : List Text
  unfolding file_signals
  build_signals =
      file_signals spring_pom_tokens jpa_pom_tokens (codes "pom.xml")
      ++ (file_signals spring_gradle_tokens jpa_gradle_tokens (codes "build.gradle")
          ++ file_signals spring_gradle_tokens jpa_gradle_tokens (codes "build.gradle.kts"))

  -- The first candidate that is a file.
  unfoldable pub first_file : List Text → Option Text
  first_file [] = none
  first_file (path ∷ paths) =
      let rest = first_file paths in if repo.is_file path then some path else rest

  abbrev pub override_file : Option Text → Option Text
  override_file none = first_file override_filenames
  override_file (some path) = some path

  abbrev read_override : Bool → Option Text → (Text → Option (List Text)) → Option (List Text)
  read_override false text frameworks = none
  read_override true none frameworks = none
  read_override true (some text) frameworks = frameworks text

  -- `frameworks` is the list under that key in a YAML text, if it is a mapping that has one. A file
  -- that is not UTF-8, where the program ends in a `UnicodeDecodeError`, is left out.
  abbrev pub override_frameworks : (Text → Option (List Text)) → Option Text → Option (List Text)
  override_frameworks frameworks none = none
  override_frameworks frameworks (some path) =
      read_override (repo.is_file path) (repo.read path) frameworks

  abbrev or_found : Option (List Text) → List Text → List Text
  or_found none found = found
  or_found (some listed) found = listed

  unfoldable pub detect_java_frameworks : (Text → Option (List Text)) → Option Text → List Text
  detect_java_frameworks frameworks override_path =
      fromkeys
        (or_found (override_frameworks frameworks (override_file override_path)) build_signals)

abbrev pub default_collision_markers : List Text
default_collision_markers =
    codes ".cursor/skills/engineering-rules/SKILL.md"
    ∷ codes ".cursor/rules/engineering-rules.mdc"
    ∷ []

abbrev pub report_only_collision_markers : List Text
report_only_collision_markers = codes "AGENTS.md" ∷ []

unfoldable pub collision_markers : Pack → List Text
collision_markers p = default_collision_markers ++ or_nil p.collisions

unfoldable pub report_collision_markers : Pack → List Text
report_collision_markers p = collision_markers p ++ report_only_collision_markers

-- The last argument is `refuse_only`.
unfoldable pub collision_hits : (Text → Bool) → Pack → Bool → List Text
collision_hits exists p refuse_only =
    keep exists (if refuse_only then collision_markers p else report_collision_markers p)
