-- ===== src/Checkers/Run.antt =====
-- checkers/run.py: the catalogue of detectors, the sources in scope, and a run of the detectors.
-- The file system is a parameter: what `pathlib` answers about one repository.
pub mod Sources
pub mod Inventory
pub mod Findings
use deslop.Prelude.{
  ℕ, Bool, true, false, ◌&&◌, ◌||◌, not, List, [], ◌∷◌, ◌++◌, Text, codes, Option, none, some, mem,
  any, keep, map, Dict, lookup, assign, ends_with, if◌then◌else◌, ◌==◌, nat_eq, list_eq, list_beq,
}
use deslop.Errors.{Raised, file_not_found, runtime_error, Result, ok, raised, ◌>>=◌}
use deslop.Checkers.Common.{Finding, lang_globs, is_skipped, is_corpus_rel}

-- A path below the repository: relative with `/`, its name, resolved, and the text that
-- `read_text` returns, `none` where it raises an `OSError`.
pub record Entry : Type 0 where
  pub rel : Text
  pub name : Text
  pub abs : Text
  pub text : Option Text

pub record Repo : Type 0 where
  pub exists : Text → Bool
  pub is_file : Text → Bool
  pub read : Text → Option Text
  -- `sorted(repo.rglob("*" + suffix))`
  pub rglob : Text → List Entry
  -- A path of `--changed-file` that is a file and lies below the repository.
  pub locate : Text → Option Entry

pub record Location : Type 0 where
  pub path : Text
  pub line : Option ℕ

pub record CheckFinding : Type 0 where
  pub rule_id : Text
  pub message : Text
  pub location : Option Location
  pub waived : Bool

-- What a call of `detect` ends with: its findings, a `FileNotFoundError`, or another exception by
-- its type and text.
pub data Detected : Type 0 where
  hits : List Finding → Detected
  missing : Text → Detected
  failed : Text → Detected

pub record Detector : Type 0 where
  pub rule_id : Text
  pub lang : Text
  pub detect : Text → Text → Detected

-- What `load_all_detectors` reads off a module `no_*.py`: `RULE_ID`, `LANG` and `detect`.
pub record DetectorModule : Type 0 where
  pub rule_id : Option Text
  pub lang : Option Text
  pub detect : Option (Text → Text → Detected)

-- The arguments are `getattr(mod, …)`.
unfoldable pub load_detector :
    Option Text
    → Option (Text → Text → Detected)
    → Option Text
    → Dict Text Detector
    → Dict Text Detector
load_detector none detect lang out = out
load_detector (some []) detect lang out = out
load_detector (some (c ∷ s)) none lang out = out
load_detector (some (c ∷ s)) (some detect) none out =
    assign (c ∷ s) (record { rule_id = c ∷ s; lang = codes "go"; detect = detect }) out
load_detector (some (c ∷ s)) (some detect) (some lang) out =
    assign (c ∷ s) (record { rule_id = c ∷ s; lang = lang; detect = detect }) out

unfoldable pub load_detectors_onto : Dict Text Detector → List DetectorModule → Dict Text Detector
load_detectors_onto out [] = out
load_detectors_onto out (m ∷ ms) =
    load_detectors_onto (load_detector m.rule_id m.detect m.lang out) ms

unfoldable pub load_all_detectors : List DetectorModule → Dict Text Detector
unfolding load_detectors_onto load_detector
load_all_detectors modules = load_detectors_onto [] modules

unfoldable pub name_matches_lang : Text → Text → Bool
name_matches_lang name lang = any (λ suffix. ends_with name suffix) (lang_globs lang)

abbrev pub out_of_scope : Text → Text → Bool
out_of_scope lang rel = is_skipped rel lang false || is_corpus_rel rel

-- What the loop over `changed_files` yields for one of them, before the rest.
abbrev pub located : Text → Option Entry → List Entry → List Entry
located lang none rest = rest
located lang (some e) rest =
    if out_of_scope lang e.rel
    then rest
    else if name_matches_lang e.name lang
    then e ∷ rest
    else rest

module _ (repo : Repo) where
  -- The loop over `changed_files`.
  unfoldable pub changed_sources : Text → List Text → List Entry
  changed_sources lang [] = []
  changed_sources lang (raw ∷ raws) =
      let rest = changed_sources lang raws in located lang (repo.locate raw) rest

  -- The loop over the paths of one pattern, with the paths seen before. It hands both on.
  unfoldable pub pattern_sources : Text → List Text → List Entry → List Text × List Entry
  pattern_sources lang seen [] = (seen, [])
  pattern_sources lang seen (e ∷ es) =
      let again = pattern_sources lang seen es in
      let next = pattern_sources lang (e.rel ∷ seen) es in
      if mem e.rel seen
      then again
      else if out_of_scope lang e.rel
      then next
      else (next.0, e ∷ next.1)

  unfoldable pub inventory_sources : Text → List Text → List Text → List Entry
  inventory_sources lang seen [] = []
  inventory_sources lang seen (suffix ∷ suffixes) =
      let found = pattern_sources lang seen (repo.rglob suffix) in
      found.1 ++ inventory_sources lang found.0 suffixes

  -- `if changed_files:`
  unfoldable pub iter_sources : Text → List Text → List Entry
  iter_sources lang [] = inventory_sources lang [] (lang_globs lang)
  iter_sources lang (raw ∷ raws) = changed_sources lang (raw ∷ raws)

-- `by_lang.setdefault(det.lang, []).append(det)`
abbrev pub listed : Option (List Detector) → List Detector
listed none = []
listed (some ds) = ds

abbrev pub add_detector : Detector → Dict Text (List Detector) → Dict Text (List Detector)
add_detector det by_lang = assign det.lang (listed (lookup det.lang by_lang) ++ det ∷ []) by_lang

unfoldable pub group_by_lang :
    Dict Text Detector → List Text → Dict Text (List Detector) → Dict Text (List Detector)
group_by_lang catalog [] by_lang = by_lang
group_by_lang catalog (rid ∷ rids) by_lang = elim (lookup rid catalog) [
  | none ↦ group_by_lang catalog rids by_lang
  | some det ↦ group_by_lang catalog rids (add_detector det by_lang)
]

abbrev pub check_finding : Entry → Finding → CheckFinding
check_finding e hit = record {
  rule_id = hit.rule_id;
  message = hit.message;
  location = some (record { path = e.rel; line = some hit.line });
  waived = false;
}

-- The `try` around `det.detect`, and the loop over the hits.
abbrev pub report_hits : Detector → Entry → Detected → Result (List CheckFinding)
report_hits det e (hits found) = ok (map (check_finding e) found)
report_hits det e (missing message) = raised (file_not_found message)
report_hits det e (failed exc) = raised (
    runtime_error (
      codes "checker " ++ (det.rule_id ++ (codes " failed on " ++ (e.rel ++ (codes ": " ++ exc))))))

unfoldable pub run_detectors : List Detector → Entry → Text → Result (List CheckFinding)
run_detectors [] e source = ok []
run_detectors (det ∷ dets) e source = do
  found ← report_hits det e (det.detect source e.abs)
  rest ← run_detectors dets e source
  ok (found ++ rest)

-- A source that cannot be read is passed over.
abbrev pub run_source : List Detector → Entry → Option Text → Result (List CheckFinding)
run_source dets e none = ok []
run_source dets e (some source) = run_detectors dets e source

unfoldable pub run_sources : List Detector → List Entry → Result (List CheckFinding)
run_sources dets [] = ok []
run_sources dets (e ∷ es) = do
  found ← run_source dets e e.text
  rest ← run_sources dets es
  ok (found ++ rest)

module _ (repo : Repo) where
  unfoldable pub run_langs : List Text → Dict Text (List Detector) → Result (List CheckFinding)
  run_langs changed_files [] = ok []
  run_langs changed_files ((lang, dets) ∷ by_lang) = do
    found ← run_sources dets (iter_sources repo lang changed_files)
    rest ← run_langs changed_files by_lang
    ok (found ++ rest)

  -- `rule_ids` without those that the catalogue lacks are grouped; no group gives no findings.
  unfoldable pub run_mine : Dict Text Detector → List Text → List Text → Result (List CheckFinding)
  run_mine catalog rule_ids changed_files =
      run_langs changed_files (group_by_lang catalog rule_ids [])
