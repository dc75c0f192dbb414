-- ===== src/Tests/Kotlin.antt =====
-- The facts of a Kotlin source.
use deslop.Prelude.{
  true, nat_eq, split, replace, contains, starts_with, ends_with, after_last, count, mem, ℕ, map,
  ◌+◌, ◌≤◌, Bool, List, [], ◌∷◌, Text, codes, none, some, ◌≡◌, refl, arith, All, keep, count_if,
  list_beq, starts_with,
}
use deslop.Texts.Strip.{strip}
use deslop.Ktast.Blank.{blank_strings_and_comments}
use deslop.Ktast.Annotations.{annotations_above, round, follow, rfind, loop}
use deslop.Ktast.Annotations.Laws.{GoesDown, annotations_above-follow}
use deslop.Ktast.Facts.{Function, Call, Facts}
use deslop.Ktast.Extract.{
  before_first, add_call, has_facts, facts_of, Patterns, name_at, load_facts,
}
use deslop.Ktast.Extract.Owners.{is_outside, count_in, IsPlacedIn}
use deslop.Checkers.Common.{is_skipped, is_test_path, test_suffix}
use deslop.Detectors.Laws.{lines}
use deslop.Detectors.Android.{detect_scope}
use deslop.Detectors.Android.Sources.{detect_scope-source}
use deslop.Ktast.Literals.{line_of}
use deslop.Ktast.Extract.Laws.{load_facts-Recorded}

abbrev find_annotations : Text → List Text
find_annotations line = codes "Preview" ∷ []

abbrev annotated : Text
annotated = codes "\n@Preview\n\nfun f() {}"

-- The annotation two lines above the function.
annotated_above : annotations_above find_annotations annotated 11 [] ≡ codes "Preview" ∷ []
unfolding annotations_above round rfind loop strip starts_with
annotated_above = refl

annotations_above-follow_example :
    GoesDown 11 (round find_annotations annotated 11 [])
    × (annotations_above find_annotations annotated 11 []
        ≡ follow
            (annotations_above find_annotations annotated)
            (round find_annotations annotated 11 []))
annotations_above-follow_example = annotations_above-follow find_annotations annotated 11 []

abbrev source : Text
source = codes "class A { fun f() { g() } }"

-- What the expressions match in that source.
abbrev patterns : Patterns
patterns = record {
  class_re = λ text. record { start = 0; end = 7; name = codes "A" } ∷ [];
  fun_re = λ text. record { start = 10; end = 15; name = codes "f" } ∷ [];
  call_re = λ text.
      record { start = 14; name = codes "f"; opener = codes "(" }
      ∷ record { start = 20; name = codes "g"; opener = codes "(" }
      ∷ [];
  ann_re = λ text. [];
  super_re = λ text. none;
}

abbrev lower : Text → Text
lower s = s

load_facts-Recorded_example :
    (facts : Facts) × (load_facts patterns lower source (codes "-") ≡ some facts)
    × All (λ cls. cls.line_start ≤ cls.line_end) facts.classes
    × All (IsPlacedIn facts.classes) facts.functions
    × All (λ c. c.in_function ≡ name_at c.line facts.functions) facts.calls
    × ((p : Call → Bool)
        → count_if p facts.calls
          ≡ count_if p (keep is_outside facts.calls) + count_in p facts.functions)
unfolding list_beq has_facts
load_facts-Recorded_example =
    load_facts-Recorded patterns lower source (codes "-") refl
      (λ text. ((omega arith, tt), (omega arith, tt)))

abbrev brief : Function → Text × ℕ × ℕ × List Text
brief fn = (fn.name, fn.line_start, fn.line_end, map (λ c. c.name) fn.calls)

source_functions :
    map brief (facts_of patterns source).functions
    ≡ (codes "f", 1, 1, codes "f" ∷ codes "g" ∷ []) ∷ []
unfolding facts_of add_call mem list_beq blank_strings_and_comments count
source_functions = refl

-- A launch on the second line.
abbrev launch : Text
launch = codes "fun f() {\nGlobalScope.launch {} }"

abbrev launches : Patterns
launches = record patterns {
  call_re =
      λ text. record { start = 10; name = codes "GlobalScope.launch"; opener = codes "{" } ∷ [];
}

detect_scope-source_example :
    mem 2 (lines (detect_scope (load_facts launches lower) launch (codes "-"))) ≡ true
unfolding is_skipped is_test_path test_suffix split replace mem list_beq contains starts_with
    ends_with after_last has_facts blank_strings_and_comments line_of count before_first
detect_scope-source_example = detect_scope-source launches lower launch (codes "-") refl refl 2
