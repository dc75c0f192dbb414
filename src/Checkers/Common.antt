-- ===== src/Checkers/Common.antt =====
-- checkers/common.py: findings, the globs of each language, and the paths that are out of scope.
pub mod Paths
use deslop.Prelude.{
  ℕ, Bool, true, false, ◌||◌, ◌&&◌, List, [], ◌∷◌, ◌++◌, Text, codes, starts_with, ends_with,
  contains, split, after_last, replace, mem, any, if◌then◌else◌, ◌==◌, list_eq, nat_eq, list_beq,
}

pub record Finding : Type 0 where
  pub line : ℕ
  pub message : Text
  pub rule_id : Text

-- `LANG_GLOBS[lang]`. Every pattern is `*` and a suffix, and the suffix is kept. The callers pass
-- the `LANG` of a detector, which is one of the five; any other language, where the program ends in
-- a `KeyError`, has no patterns here.
unfoldable pub lang_globs : Text → List Text
lang_globs lang =
    if lang == codes "go"
    then codes ".go" ∷ []
    else if lang == codes "python"
    then codes ".py" ∷ []
    else if lang == codes "ts"
    then codes ".ts" ∷ codes ".tsx" ∷ codes ".js" ∷ codes ".jsx" ∷ []
    else if lang == codes "java"
    then codes ".java" ∷ []
    else if lang == codes "android"
    then codes ".kt" ∷ codes ".kts" ∷ codes ".java" ∷ []
    else []

abbrev pub skip_dir_parts : List Text
skip_dir_parts =
    codes "vendor"
    ∷ codes "node_modules"
    ∷ codes "testdata"
    ∷ codes "dist"
    ∷ codes "build"
    ∷ codes "target"
    ∷ codes "__pycache__"
    ∷ codes ".venv"
    ∷ codes "venv"
    ∷ codes ".git"
    ∷ codes "migrations"
    ∷ codes "assets"
    ∷ codes ".next"
    ∷ codes "coverage"
    ∷ codes "generated"
    ∷ codes "androidTest"
    ∷ codes ".gradle"
    ∷ codes "e2e"
    ∷ []

abbrev pub corpus_dir_parts : List Text
corpus_dir_parts = codes "fixtures" ∷ codes "agent-runs" ∷ []

-- `_TEST_SUFFIX.get(lang, ())`
unfoldable pub test_suffix : Text → List Text
test_suffix lang =
    if lang == codes "go"
    then codes "_test.go" ∷ codes "_tests.go" ∷ []
    else if lang == codes "python"
    then codes "_test.py" ∷ []
    else if lang == codes "ts"
    then codes ".test.ts"
      ∷ codes ".spec.ts"
      ∷ codes ".test.tsx"
      ∷ codes ".spec.tsx"
      ∷ codes ".test.js"
      ∷ codes ".spec.js"
      ∷ []
    else if lang == codes "java"
    then codes "Test.java" ∷ codes "Tests.java" ∷ codes "IT.java" ∷ []
    else if lang == codes "android"
    then codes "Test.kt"
      ∷ codes "Tests.kt"
      ∷ codes "Test.java"
      ∷ codes "Tests.java"
      ∷ codes "ScreenshotTest.kt"
      ∷ []
    else []

-- `filename.replace("\\", "/")` and `f"/{text}/"`
abbrev pub normalized : Text → Text
normalized filename = replace b'\\' b'/' filename

abbrev pub padded : Text → Text
padded s = b'/' ∷ (s ++ b'/' ∷ [])

-- The tests behind `include_tests`, over the normalised path and its last component.
unfoldable pub is_test_path : Text → Text → Text → Bool
is_test_path norm name lang =
    if ends_with name (codes ".gradle.kts")
      || mem name (codes "build.gradle.kts" ∷ codes "settings.gradle.kts" ∷ [])
    then true
    else if lang == codes "android"
        && (contains (padded norm) (codes "/src/test/")
            || contains (padded norm) (codes "/src/screenshotTest/"))
    then true
    else if lang == codes "java" && contains (padded norm) (codes "/src/test/")
    then true
    else if starts_with name (codes "test_") && mem lang (codes "python" ∷ codes "go" ∷ [])
    then true
    else any (λ suf. ends_with name suf) (test_suffix lang)

-- The three arguments are `filename`, `lang` and `include_tests`.
unfoldable pub is_skipped : Text → Text → Bool → Bool
is_skipped filename lang include_tests =
    let norm = normalized filename in
    if any (λ part. mem part skip_dir_parts) (split b'/' norm)
    then true
    else if any (λ d. contains (padded norm) (padded d)) skip_dir_parts
    then true
    else if include_tests
    then false
    else is_test_path norm (after_last b'/' norm) lang

unfoldable pub is_corpus_rel : Text → Bool
is_corpus_rel rel = any (λ part. mem part corpus_dir_parts) (split b'/' (normalized rel))
