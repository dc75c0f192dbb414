-- ===== src/Tests/Run.antt =====
-- The paths in scope, the run of the detectors and the exit status.
use deslop.Prelude.{
  Bool, true, false, [], ◌∷◌, Text, codes, none, some, some, ◌≡◌, refl, lookup, mem, nat_eq,
  list_eq, list_beq, fromkeys, assign, ◌==◌, any, not, after_last, split, replace, contains,
  ends_with, starts_with, All, Distinct,
}
use deslop.Errors.{ok}
use deslop.Checkers.Common.{is_skipped, is_test_path, lang_globs, test_suffix, is_corpus_rel}
use deslop.Checkers.Common.Paths.{is_skipped-parts}
use deslop.Checkers.Run.{
  CheckFinding, run_mine, iter_sources, check_finding, run_langs, group_by_lang, run_sources,
  run_detectors, changed_sources, name_matches_lang, inventory_sources, pattern_sources,
}
use deslop.Checkers.Run.Sources.{InScope, iter_sources-InScope}
use deslop.Checkers.Run.Inventory.{iter_sources-Distinct, rels}
use deslop.Checkers.Run.Findings.{any-run_mine}
use deslop.Packs.{
  checker, teach_only, check_rule_ids, engine_rule_ids, mine_rule_ids, skill_enforcement_map,
  survey_skills, survey_skill, survey_rule, accept, require_enforcement,
}
use deslop.Check.Coverage.{coverage_of}
use deslop.Check.{
  main_with, Report, merge_enforcement, all_check_rule_ids, run_check, selected_rules, mine_ids,
  status_of, merge_onto, update, Host, Args, CombinedResult,
}
use deslop.Check.Status.{main_with-status}
use deslop.Tests.Data.{android, repo, catalog, main_kt}

is_skipped-parts_example : is_skipped (codes "app\\src\\MainTest.kt") (codes "android") false ≡ true
unfolding is_skipped split replace mem list_beq is_test_path ends_with after_last contains
    test_suffix starts_with
is_skipped-parts_example = is_skipped-parts (codes "app\\src\\MainTest.kt") (codes "android") false

read : iter_sources repo (codes "android") [] ≡ main_kt ∷ []
unfolding iter_sources list_beq inventory_sources lang_globs pattern_sources mem is_skipped split
    replace contains is_test_path ends_with after_last test_suffix is_corpus_rel starts_with
read = refl

iter_sources-InScope_example :
    All (InScope (codes "android")) (iter_sources repo (codes "android") [])
iter_sources-InScope_example = iter_sources-InScope repo (codes "android") []

iter_sources-Distinct_example : Distinct (rels (iter_sources repo (codes "android") []))
iter_sources-Distinct_example = iter_sources-Distinct repo (codes "android")

abbrev found : Text → CheckFinding
found rule = check_finding main_kt (record { line = 1; message = codes "found"; rule_id = rule })

abbrev is_scope : CheckFinding → Bool
is_scope f = f.rule_id == codes "scope"

ran :
    run_mine repo catalog (codes "scope" ∷ codes "copy" ∷ []) []
    ≡ ok (found (codes "scope") ∷ found (codes "copy") ∷ [])
unfolding run_mine run_langs group_by_lang lookup assign run_sources run_detectors changed_sources
    name_matches_lang iter_sources list_beq inventory_sources lang_globs pattern_sources mem
    is_skipped split replace contains is_test_path ends_with after_last test_suffix is_corpus_rel
    starts_with
ran = refl

any-run_mine_example : any is_scope (found (codes "scope") ∷ found (codes "copy") ∷ []) ≡ true
unfolding lookup iter_sources list_beq inventory_sources lang_globs pattern_sources mem is_skipped
    split replace contains is_test_path ends_with after_last test_suffix is_corpus_rel starts_with
any-run_mine_example = any-run_mine is_scope repo [] catalog (codes "scope" ∷ codes "copy" ∷ []) ran

abbrev host : Host
host = record { set_order = fromkeys; lower = λ t. t; frameworks = λ _. none }

abbrev args : Args
args = record {
  pack = [];
  rule = [];
  changed_file = [];
  override_file = none;
  report_collisions = true;
}

known :
    any
      (λ r. not (mem r (all_check_rule_ids (android ∷ []))))
      (selected_rules host (android ∷ []) [])
    ≡ false
unfolding check_rule_ids fromkeys engine_rule_ids mine_rule_ids mem list_beq
known = refl

abbrev result : CombinedResult
result = record { findings = found (codes "scope") ∷ found (codes "copy") ∷ []; coverage = none }

checked :
    run_check host repo catalog (selected_rules host (android ∷ []) []) [] none (android ∷ [])
    ≡ ok result
unfolding run_check coverage_of mine_ids check_rule_ids fromkeys engine_rule_ids mine_rule_ids mem
    list_beq
checked = rw ran refl

merged :
    merge_enforcement (android ∷ [])
    ≡ ok ((codes "scope", checker) ∷ (codes "copy", teach_only) ∷ [])
unfolding merge_enforcement merge_onto update assign lookup list_beq skill_enforcement_map
    survey_skills survey_skill survey_rule accept require_enforcement check_rule_ids engine_rule_ids
    mine_rule_ids fromkeys mem
merged = refl

main_with-status_example :
    (r : Report) × (main_with host repo catalog android args (android ∷ [])
      ≡ ok (record { status = status_of r.passed; report = some r }))
    × (r.passed ≡ false)
unfolding lookup iter_sources list_beq inventory_sources lang_globs pattern_sources mem is_skipped
    split replace contains is_test_path ends_with after_last test_suffix is_corpus_rel starts_with
    mine_ids check_rule_ids fromkeys engine_rule_ids mine_rule_ids
main_with-status_example =
    main_with-status host repo catalog android args (android ∷ []) known checked merged
