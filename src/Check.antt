-- ===== src/Check.antt =====
-- scripts/check.py: the packs and rules of a run, its report and its exit status.
pub mod Coverage
pub mod Select
pub mod Status
use deslop.Prelude.{
  ℕ, Bool, true, false, ◌&&◌, ◌||◌, not, List, [], ◌∷◌, ◌++◌, map, Text, codes, Option, none, some,
  mem, any, keep, fromkeys, Dict, lookup, assign, if◌then◌else◌, ◌==◌, nat_eq, list_eq, length,
}
use deslop.Errors.{
  Raised, Result, ok, raised, key_error, file_not_found, runtime_error, bad_skills, no_enforcement,
  unknown_pack, skills_missing_pack, refused, no_snapshots, value_error, ◌>>=◌,
}
use deslop.Packs.{
  Pack, check_rule_ids, mine_rule_ids, checker, teach_only, skill_enforcement_map, checker_rule_ids,
  teach_only_rule_ids, is_kind, get_or,
}
use deslop.Packs.Frameworks.{detect_java_frameworks, collision_hits}
use deslop.Checkers.Run.{Repo, Detector, CheckFinding, Location, run_mine}
use deslop.Check.Coverage.{CoverageInfo, coverage_of, required_of, uncovered_pack}
use deslop.Check.Select.{select_packs, is_cons}

-- `merged.update(…)`
unfoldable pub update : Dict Text Text → Dict Text Text → Dict Text Text
update d [] = d
update d ((k, v) ∷ more) = update (assign k v d) more

unfoldable pub merge_onto : Dict Text Text → List Pack → Result (Dict Text Text)
merge_onto merged [] = ok merged
merge_onto merged (p ∷ ps) = do m ← skill_enforcement_map p; merge_onto (update merged m) ps

unfoldable pub merge_enforcement : List Pack → Result (Dict Text Text)
merge_enforcement packs = merge_onto [] packs

abbrev pub all_check_rule_ids : List Pack → List Text
all_check_rule_ids [] = []
all_check_rule_ids (p ∷ ps) = check_rule_ids p ++ all_check_rule_ids ps

abbrev pub or_list : List Text → List Text → List Text
or_list [] ys = ys
or_list (x ∷ xs) ys = x ∷ xs

-- `mine_ids` of `run_check`
unfoldable pub mine_ids : List Pack → List Text → List Text
mine_ids packs selected = keep (λ rid. any (λ p. mem rid (mine_rule_ids p)) packs) selected

-- `mine_ids` for `selected = tuple(rule_ids) if rule_ids else allowed_unique`
abbrev pub checked_rules : List Pack → List Text → List Text
checked_rules packs rule_ids =
    mine_ids packs (or_list rule_ids (fromkeys (all_check_rule_ids packs)))

pub record CombinedResult : Type 0 where
  pub findings : List CheckFinding
  pub coverage : Option CoverageInfo

-- What the program asks of Python and PyYAML: the order of a set, `str.lower`, and the list
-- `frameworks` of a YAML text.
pub record Host : Type 0 where
  pub set_order : List Text → List Text
  pub lower : Text → Text
  pub frameworks : Text → Option (List Text)

-- The command line. `root` is the pack of the root's pack.yaml, which `load_pack` reads.
pub record Args : Type 0 where
  pub pack : List Text
  pub rule : List Text
  pub changed_file : List Text
  pub override_file : Option Text
  pub report_collisions : Bool

module _ (host : Host) (repo : Repo) (catalog : Dict Text Detector) where
  unfoldable pub run_check : List Text → List Text → Option Text → List Pack → Result CombinedResult
  run_check rule_ids changed_files override_path packs = do
    findings ← run_mine repo catalog (checked_rules packs rule_ids) changed_files
    ok (record {
      findings = findings;
      coverage =
          coverage_of host.lower (detect_java_frameworks repo host.frameworks override_path) packs
            (or_list rule_ids (fromkeys (all_check_rule_ids packs)));
    })

-- `_finding_payload`
pub record Payload : Type 0 where
  pub rule_id : Text
  pub enforcement : Text
  pub path : Option Text
  pub message : Text

pub record Report : Type 0 where
  pub pack_id : Text
  pub pack_ids : List Text
  pub passed : Bool
  pub finding_count : ℕ
  pub gate_finding_count : ℕ
  pub teach_only_finding_count : ℕ
  pub rule_ids : List Text
  pub enforcement : List (Text × Text)
  pub not_covered : List Text
  pub pack_frameworks : List Text
  pub uncovered_pack_frameworks : List Text
  pub coverage : Option CoverageInfo
  pub collisions : List Text
  pub findings : List Payload
  pub gate_rule_ids : List Text

abbrev path_of : Option Location → Option Text
path_of none = none
path_of (some l) = some l.path

abbrev pub finding_payload : Dict Text Text → CheckFinding → Payload
finding_payload enforcement f = record {
  rule_id = f.rule_id;
  enforcement = get_or (codes "unknown") (lookup f.rule_id enforcement);
  path = path_of f.location;
  message = f.message;
}

-- `"+".join(pack_ids)`, which is the id itself where there is one
abbrev onto_joined : Text → List Text → Text → Text
onto_joined p [] rest = p
onto_joined p (_ ∷ _) rest = p ++ b'+' ∷ rest

unfoldable pub joined_ids : List Text → Text
joined_ids [] = []
joined_ids (p ∷ ps) = onto_joined p ps (joined_ids ps)

abbrev pub enforced_as : Dict Text Text → Text → CheckFinding → Bool
enforced_as enforcement kind f = is_kind kind (lookup f.rule_id enforcement)

-- The two loops over the packs that collect `gate_ids` and `teach_ids`.
unfoldable pub collect_ids : (Pack → Result (List Text)) → List Pack → Result (List Text)
collect_ids ids [] = ok []
collect_ids ids (p ∷ ps) = do found ← ids p; rest ← collect_ids ids ps; ok (found ++ rest)

-- `{rule_id: enforcement[rule_id] for rule_id in selected}`, over the first places of the ids
unfoldable pub enforcement_of : Dict Text Text → List Text → Result (Dict Text Text)
enforcement_of enforcement [] = ok []
enforcement_of enforcement (r ∷ rs) = elim (lookup r enforcement) [
  | none ↦ raised (key_error r)
  | some k ↦ enforcement_of enforcement rs >>= λ rest. ok ((r, k) ∷ rest)
]

-- The dictionary that `build_report` returns.
abbrev pub report_of :
    Host
    → Dict Text Text
    → List Text
    → List Text
    → Dict Text Text
    → List Pack
    → List Text
    → List Text
    → CombinedResult
    → Report
report_of host enforcement gate_ids teach_ids shown packs collisions selected result =
    let findings = keep (λ f. not f.waived) result.findings in
    let gate_findings = keep (enforced_as enforcement checker) findings in
    let teach_findings = keep (enforced_as enforcement teach_only) findings in
    let required = fromkeys (required_of packs) in
    record {
      pack_id = joined_ids (map (λ p. p.pack_id) packs);
      pack_ids = map (λ p. p.pack_id) packs;
      passed = not (is_cons gate_findings);
      finding_count = length gate_findings;
      gate_finding_count = length gate_findings;
      teach_only_finding_count = length teach_findings;
      rule_ids = selected;
      enforcement = shown;
      not_covered = keep (λ r. mem r teach_ids) selected;
      pack_frameworks = required;
      uncovered_pack_frameworks = uncovered_pack host.lower result.coverage required;
      coverage = result.coverage;
      collisions = collisions;
      findings = map (finding_payload enforcement) findings;
      gate_rule_ids = keep (λ r. mem r gate_ids) selected;
    }

-- The arguments behind the packs are `collision_hits(repo_root) if report_collisions else ()`,
-- `selected` and `result`.
unfoldable pub build_report :
    Host → List Pack → List Text → List Text → CombinedResult → Result Report
build_report host packs collisions selected result = do
  enforcement ← merge_enforcement packs
  gate_ids ← collect_ids checker_rule_ids packs
  teach_ids ← collect_ids teach_only_rule_ids packs
  shown ← enforcement_of enforcement (fromkeys selected)
  ok (report_of host enforcement gate_ids teach_ids shown packs collisions selected result)

-- What a run ends with: an exit status with the report if one is printed, or an exception that
-- `main` does not catch.
pub record Exit : Type 0 where
  pub status : ℕ
  pub report : Option Report

abbrev pub status_of : Bool → ℕ
status_of true = 0
status_of false = 1

abbrev pub finish : Result Report → Result Exit
finish (ok r) = ok (record { status = status_of r.passed; report = some r })
finish (raised e) = raised e

abbrev usage_exit : Result Exit
usage_exit = ok (record { status = 2; report = none })

-- The two `except` clauses around `run_check`, and the report.
unfoldable pub after_run :
    Host → List Pack → List Text → List Text → Result CombinedResult → Result Exit
after_run host packs collisions selected (ok result) =
    finish (build_report host packs collisions selected result)
after_run host packs collisions selected (raised (file_not_found _)) = usage_exit
after_run host packs collisions selected (raised (runtime_error _)) = usage_exit
after_run host packs collisions selected (raised (bad_skills ms is)) = raised (bad_skills ms is)
after_run host packs collisions selected (raised (no_enforcement r)) = raised (no_enforcement r)
after_run host packs collisions selected (raised (unknown_pack p)) = raised (unknown_pack p)
after_run host packs collisions selected (raised (key_error r)) = raised (key_error r)
after_run host packs collisions selected (raised (skills_missing_pack ns)) =
    raised (skills_missing_pack ns)
after_run host packs collisions selected (raised (refused hits)) = raised (refused hits)
after_run host packs collisions selected (raised (no_snapshots d)) = raised (no_snapshots d)
after_run host packs collisions selected (raised (value_error t)) = raised (value_error t)

-- `args.rule or list(allowed)`
abbrev pub selected_rules : Host → List Pack → List Text → List Text
selected_rules host packs rules = or_list rules (host.set_order (all_check_rule_ids packs))

abbrev pub shown_collisions : Repo → Pack → Bool → List Text
shown_collisions repo root false = []
shown_collisions repo root true = collision_hits repo.exists root false

-- `main`, and what follows `select_packs` in it.
module _ (host : Host) (repo : Repo) (catalog : Dict Text Detector) (root : Pack) where
  unfoldable pub main_with : Args → List Pack → Result Exit
  main_with args packs =
      let selected = selected_rules host packs args.rule in
      if any (λ r. not (mem r (all_check_rule_ids packs))) selected
      then usage_exit
      else after_run host packs (shown_collisions repo root args.report_collisions) selected
          (run_check host repo catalog selected args.changed_file args.override_file packs)

  unfoldable pub main : Args → List Pack → Result Exit
  main args nested = do packs ← select_packs repo root nested args.pack; main_with args packs
