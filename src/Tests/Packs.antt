-- ===== src/Tests/Packs.antt =====
-- The packs.
use deslop.Prelude.{
  ◌==◌, none, false, contains, starts_with, Distinct, true, [], ◌∷◌, Text, codes, some, ◌≡◌, refl,
  Dict, lookup, mem, nat_eq, list_eq, list_beq, fromkeys, ◌⊎◌, assign,
}
use deslop.Errors.{ok, raised, bad_skills, no_enforcement}
use deslop.Packs.{
  Pack, check_rule_ids, checker, teach_only, skill_enforcement_map, checker_rule_ids,
  teach_only_rule_ids, accept, survey_skills, survey_skill, survey_rule, require_enforcement,
  engine_rule_ids, mine_rule_ids,
}
use deslop.Packs.Enforcement.{
  IsComplete, declared, skill_enforcement_map-declared, skill_enforcement_map_total,
}
use deslop.Packs.Kinds.{checker_rule_ids-teach_only_rule_ids}
use deslop.Packs.Load.{
  load_pack_by_id, answers, load_pack_by_id_folder, strip_version, pack_folder_name, version_suffix,
  wanted,
}
use deslop.Packs.Frameworks.{
  spring, jpa, detect_java_frameworks, first_file, collision_hits, report_collision_markers,
  collision_markers,
}
use deslop.Packs.Frameworks.Laws.{detect_java_frameworks-build}
use deslop.Checkers.Run.{Repo}
use deslop.Check.Coverage.{CoverageInfo, coverage_of, uncovered_pack, required_of}
use deslop.Check.Coverage.Laws.{uncovered_pack-coverage_of}
use deslop.Tests.Data.{android, skill, repo}

rule_ids : check_rule_ids android ≡ codes "scope" ∷ codes "copy" ∷ []
unfolding check_rule_ids fromkeys engine_rule_ids mine_rule_ids mem list_beq
rule_ids = refl

abbrev android_map : Dict Text Text
android_map = (codes "scope", checker) ∷ (codes "copy", teach_only) ∷ []

mapped : skill_enforcement_map android ≡ ok android_map
unfolding skill_enforcement_map accept survey_skills survey_skill survey_rule require_enforcement
    lookup assign check_rule_ids fromkeys engine_rule_ids mine_rule_ids mem list_beq
mapped = refl

-- A rule id without an enforcement of the two, and a rule that no skill declares.
refused :
    skill_enforcement_map (record android { skills = some (skill "scope" "gate" ∷ []) })
    ≡ raised (bad_skills [] ((codes "scope", some (codes "gate")) ∷ []))
unfolding skill_enforcement_map accept survey_skills survey_skill survey_rule require_enforcement
    lookup assign check_rule_ids fromkeys engine_rule_ids mine_rule_ids mem list_beq
refused = refl

undeclared :
    skill_enforcement_map (record android { skills = some (skill "scope" "checker" ∷ []) })
    ≡ raised (no_enforcement (codes "copy"))
unfolding skill_enforcement_map accept survey_skills survey_skill survey_rule require_enforcement
    lookup assign check_rule_ids fromkeys engine_rule_ids mine_rule_ids mem list_beq
undeclared = refl

skill_enforcement_map-declared_example :
    IsComplete android × ((r : Text) → lookup r android_map ≡ declared r android)
skill_enforcement_map-declared_example = skill_enforcement_map-declared android mapped

android-IsComplete : IsComplete android
android-IsComplete = skill_enforcement_map-declared_example.0

skill_enforcement_map_total_example : (m : Dict Text Text) × (skill_enforcement_map android ≡ ok m)
skill_enforcement_map_total_example = skill_enforcement_map_total android android-IsComplete

checker_rule_ids-teach_only_rule_ids_example :
    (checker_rule_ids android ≡ ok (codes "scope" ∷ []))
    × (teach_only_rule_ids android ≡ ok (codes "copy" ∷ []))
    × ((r : Text)
        → mem r (codes "scope" ∷ codes "copy" ∷ []) ≡ true
        → (declared r android ≡ some checker) ⊎ (declared r android ≡ some teach_only))
unfolding check_rule_ids fromkeys engine_rule_ids mine_rule_ids mem list_beq
checker_rule_ids-teach_only_rule_ids_example =
    checker_rule_ids-teach_only_rule_ids android android-IsComplete

abbrev kt : Pack
kt = record android { pack_id = codes "kt-v12" }

load_pack_by_id_folder_example :
    (q : Pack) × (load_pack_by_id (android ∷ kt ∷ []) (codes "kt") ≡ ok q)
    × (answers (codes "kt") q ≡ true)
unfolding version_suffix
load_pack_by_id_folder_example =
    load_pack_by_id_folder (android ∷ []) [] kt (codes "kt") (codes "12") refl
      ((λ e. cc), (refl, (refl, tt))) (refl, (refl, tt))

found_folder : load_pack_by_id (android ∷ kt ∷ []) (codes "kt") ≡ ok kt
unfolding load_pack_by_id wanted lookup pack_folder_name strip_version version_suffix list_beq
found_folder = refl

abbrev java : Pack
java = record android {
  lang = some (codes "java");
  frameworks = some (codes "Spring" ∷ codes "jpa" ∷ []);
}

uncovered_pack-coverage_of_example :
    (c : CoverageInfo) × (coverage_of (λ t. t) (codes "jpa" ∷ []) (java ∷ []) [] ≡ some c)
    × (uncovered_pack
          (λ t. t)
          (coverage_of (λ t. t) (codes "jpa" ∷ []) (java ∷ []) [])
          (codes "Spring" ∷ codes "jpa" ∷ [])
        ≡ c.uncovered_frameworks)
unfolding required_of fromkeys mem list_beq
uncovered_pack-coverage_of_example =
    uncovered_pack-coverage_of (λ t. t) (codes "jpa" ∷ []) java [] [] (refl, tt)

-- A repository with one file.
abbrev maven : Repo
maven = record repo {
  is_file = λ path. path == codes "pom.xml";
  read = λ path. some (codes "<artifactId>spring-boot-starter-data-jpa</artifactId>");
}

detect_java_frameworks-build_example :
    Distinct (detect_java_frameworks maven (λ _. none) none)
    × (mem spring (detect_java_frameworks maven (λ _. none) none) ≡ true)
    × (mem jpa (detect_java_frameworks maven (λ _. none) none) ≡ true)
unfolding first_file list_beq contains starts_with
detect_java_frameworks-build_example = detect_java_frameworks-build maven (λ _. none) none refl

collisions :
    collision_hits (λ path. path == codes "AGENTS.md") android false ≡ codes "AGENTS.md" ∷ []
unfolding collision_hits report_collision_markers collision_markers list_beq
collisions = refl
