-- ===== src/Tsast.antt =====
-- checkers/tsast_client.py: which TypeScript files are in scope.
use deslop.Prelude.{
  Bool, true, false, List, [], ◌∷◌, Text, codes, any, mem, split, if◌then◌else◌, nat_eq, list_eq,
}
use deslop.Checkers.Common.{is_skipped, normalized}

abbrev pub extra_skip_dirs : List Text
extra_skip_dirs =
    codes "test"
    ∷ codes "tests"
    ∷ codes "__tests__"
    ∷ codes "benchmarks"
    ∷ codes "e2e"
    ∷ codes "playground"
    ∷ codes "integration"
    ∷ []

unfoldable pub is_out_of_scope : Text → Bool → Bool
is_out_of_scope filename include_tests =
    if is_skipped filename (codes "ts") include_tests
    then true
    else if include_tests
    then false
    else any (λ part. mem part extra_skip_dirs) (split b'/' (normalized filename))
