-- ===== src/Check/Status.antt =====
-- The exit status of `main`.
use deslop.Prelude.{
  Bool, true, false, ◌&&◌, ◌||◌, not, List, [], ◌∷◌, ◌++◌, Text, Option, none, some, mem,
  mem-fromkeys, fromkeys, any, keep, Dict, lookup, assign, if◌then◌else◌, ◌==◌, nat_eq, list_eq,
  ◌≡◌, ◌≢◌, refl, arith, ap, ◌∙◌, sym, Bool-cases, inl, inr, All, lookup-assign, Option-cases,
  list_beq_iff, mem-append, mem-head, mem-tail,
}
use deslop.Errors.{Result, ok, raised, >>=-eq-ok}
use deslop.Packs.{
  Pack, check_rule_ids, checker, skill_enforcement_map, checker_rule_ids, teach_only_rule_ids,
}
use deslop.Packs.Enforcement.{IsComplete, skill_enforcement_map-declared}
use deslop.Packs.Kinds.{checker_rule_ids-teach_only_rule_ids}
use deslop.Checkers.Run.{run_mine, Repo, Detector, CheckFinding}
use deslop.Checkers.Run.Findings.{any-run_mine, selects}
use deslop.Check.Coverage.{CoverageInfo}
use deslop.Check.Select.{is_cons}
use deslop.Check.{
  Host, Args, CombinedResult, Report, update, merge_onto, merge_enforcement, all_check_rule_ids,
  checked_rules, run_check, enforced_as, collect_ids, enforcement_of, build_report, report_of,
  status_of, after_run, selected_rules, main_with, shown_collisions,
}

abbrev is_some : Option Text → Bool
is_some none = false
is_some (some _) = true

abbrev has : Text → Dict Text Text → Bool
has r d = is_some (lookup r d)

has-assign : (r k v : Text) (d : Dict Text Text) → has r (assign k v d) ≡ ((k == r) || has r d)
has-assign r k v d = ap is_some (lookup-assign k r v d) ∙ by_case (k == r) (lookup r d)
  where
    by_case : (b : Bool) (o : Option Text) → is_some (if b then some v else o) ≡ (b || is_some o)
    by_case b o = ground arith

has-update : (r : Text) (d more : Dict Text Text) → has r (update d more) ≡ (has r d || has r more)
unfolding update lookup
has-update r d [] = ground arith
has-update r d ((k, v) ∷ more) =
    has-update r (assign k v d) more ∙ rw has-assign (by_case (k == r) (has r d) (lookup r more))
  where
    by_case :
        (b c : Bool) (o : Option Text)
        → ((b || c) || is_some o) ≡ (c || is_some (if b then some v else o))
    by_case b c o = ground arith

has_of_ne : (o : Option Text) → o ≢ none → is_some o ≡ true
has_of_ne none h = absurd (h refl)
has_of_ne (some t) h = refl

or_true : (a : Bool) {b : Bool} → b ≡ true → (a || b) ≡ true
or_true a h = ground arith

or_right : {a b : Bool} → a ≡ false → (a || b) ≡ true → b ≡ true
or_right h k = ground arith

-- What a merge that succeeds says of the packs.
record Merged (d : Dict Text Text) (packs : List Pack) (m : Dict Text Text) : Type 0 where
  complete : All IsComplete packs
  kept : (r : Text) → has r d ≡ true → has r m ≡ true
  covers : (r : Text) → mem r (all_check_rule_ids packs) ≡ true → has r m ≡ true

merge_onto-Merged :
    (packs : List Pack) (d : Dict Text Text) {m : Dict Text Text}
    → merge_onto d packs ≡ ok m
    → Merged d packs m
unfolding merge_onto mem
merge_onto-Merged [] d {m} h =
    let same : d ≡ m = cc in
    record { complete = tt; kept = λ r e. rw (← same) e; covers = λ r e. cc }
merge_onto-Merged (p ∷ ps) d {m} h =
    let (mp, mapped, merged) =
      >>=-eq-ok (skill_enforcement_map p) (λ mp. merge_onto (update d mp) ps) h in
    let rest = merge_onto-Merged ps (update d mp) merged in
    let (c, all) = skill_enforcement_map-declared p mapped in
    record {
      complete = (c, rest.complete);
      kept = λ r e. rest.kept r (has-update r d mp ∙ rw e refl);
      covers = λ r e. elim (Bool-cases (mem r (check_rule_ids p))) [
        | inl listed ↦ rest.kept r (
            has-update r d mp
            ∙ or_true (has r d)
                (has_of_ne (lookup r mp) (λ absent. c.covered r listed (sym (all r) ∙ absent))))
        | inr other ↦
            rest.covers r
              (or_right other (sym (mem-append r (check_rule_ids p) (all_check_rule_ids ps)) ∙ e))
      ];
    }

-- All packs are complete, so their lists of ids are there.
collect_ids_total :
    (ids : Pack → Result (List Text)) (packs : List Pack)
    → ((p : Pack) → IsComplete p → (rs : List Text) × (ids p ≡ ok rs))
    → All IsComplete packs
    → (rs : List Text) × (collect_ids ids packs ≡ ok rs)
unfolding collect_ids
collect_ids_total ids [] f h = ([], refl)
collect_ids_total ids (p ∷ ps) f (c, h) =
    let (found, e) = f p c in
    let (rest, e') = collect_ids_total ids ps f h in (found ++ rest, rw (e, e') refl)

enforcement_of_total :
    (m : Dict Text Text) (rs : List Text)
    → ((r : Text) → mem r rs ≡ true → has r m ≡ true)
    → (shown : Dict Text Text) × (enforcement_of m rs ≡ ok shown)
unfolding enforcement_of
enforcement_of_total m [] h = ([], refl)
enforcement_of_total m (r ∷ rs) h = elim (Option-cases (lookup r m)) [
  | inl absent ↦ absurd (no_some (lookup r m) absent (h r (mem-head r rs)))
  | inr (k, found) ↦
      let (shown, e) = enforcement_of_total m rs (λ j listed. h j (mem-tail j r rs listed)) in
      ((r, k) ∷ shown, rw (found, enforcement_of) (rw e refl))
]
  where
    no_some : (o : Option Text) → o ≡ none → is_some o ≡ true → ⊥
    no_some none e h = cc
    no_some (some t) e h = cc

any-keep :
    {A : Type 0} (p q : A → Bool) (xs : List A) → any p (keep q xs) ≡ any (λ x. q x && p x) xs
any-keep p q [] = refl
any-keep p q (x ∷ xs) = ground (arith, any-keep p q xs)

is_cons-keep : {A : Type 0} (p : A → Bool) (xs : List A) → is_cons (keep p xs) ≡ any p xs
is_cons-keep p [] = refl
is_cons-keep p (x ∷ xs) = ground (arith, is_cons-keep p xs)

-- A finding that fails the build: of a rule that is enforced by a checker, and not waived.
abbrev pub gates : Dict Text Text → CheckFinding → Bool
gates m f = not f.waived && enforced_as m checker f

build_report_total :
    (host : Host) (packs : List Pack) (collisions selected : List Text) (result : CombinedResult)
    {m : Dict Text Text}
    → merge_enforcement packs ≡ ok m
    → ((r : Text) → mem r selected ≡ true → mem r (all_check_rule_ids packs) ≡ true)
    → (r : Report) × (build_report host packs collisions selected result ≡ ok r)
      × (r.passed ≡ not (any (gates m) result.findings))
unfolding build_report merge_enforcement
build_report_total host packs collisions selected result {m} merged known =
    let h = merge_onto-Merged packs [] merged in
    let (gate_ids, e) = collect_ids_total checker_rule_ids packs gate_list h.complete in
    let (teach_ids, e') = collect_ids_total teach_only_rule_ids packs teach_list h.complete in
    let (shown, e'') =
      enforcement_of_total m (fromkeys selected)
        (λ r listed. h.covers r (known r (sym (mem-fromkeys r selected) ∙ listed))) in
    (
      report_of host m gate_ids teach_ids shown packs collisions selected result,
      rw (merged, e, e', e'') refl,
      ap not (
          is_cons-keep (enforced_as m checker) (keep (λ f. not f.waived) result.findings)
          ∙ any-keep (enforced_as m checker) (λ f. not f.waived) result.findings),
    )
  where
    gate_list : (p : Pack) → IsComplete p → (rs : List Text) × (checker_rule_ids p ≡ ok rs)
    gate_list p c = (_, (checker_rule_ids-teach_only_rule_ids p c).0)

    teach_list : (p : Pack) → IsComplete p → (rs : List Text) × (teach_only_rule_ids p ≡ ok rs)
    teach_list p c = (_, (checker_rule_ids-teach_only_rule_ids p c).1)

-- The rules asked for are rules of the packs.
abbrev Known : List Pack → List Text → Type 0
Known packs rs = (r : Text) → mem r rs ≡ true → mem r (all_check_rule_ids packs) ≡ true

Known-of_none :
    (packs : List Pack) (rs : List Text)
    → any (λ r. not (mem r (all_check_rule_ids packs))) rs ≡ false
    → Known packs rs
unfolding mem
Known-of_none packs [] h r listed = cc
Known-of_none packs (x ∷ rs) h r listed = elim (Bool-cases (x == r)) [
  | inl same ↦
      ap (λ j. mem j (all_check_rule_ids packs)) (sym ((list_beq_iff x r).0 same)) ∙ not_false _ _ h
  | inr other ↦ Known-of_none packs rs (or_false_of _ _ h) r (or_right other listed)
]
  where
    not_false : (a b : Bool) → (not a || b) ≡ false → a ≡ true
    not_false a b h = ground arith

    or_false_of : (a b : Bool) → (a || b) ≡ false → b ≡ false
    or_false_of a b h = ground arith

module _ (host : Host) (repo : Repo) (catalog : Dict Text Detector) (root : Pack) where
  -- The findings of a check are those of the run.
  run_check-findings :
      (rules changed_files : List Text) (override_path : Option Text) (packs : List Pack)
      {result : CombinedResult}
      → run_check host repo catalog rules changed_files override_path packs ≡ ok result
      → run_mine repo catalog (checked_rules packs rules) changed_files ≡ ok result.findings
  unfolding run_check
  run_check-findings rules changed_files override_path packs {result} h =
      let (fs, ran, built) =
        >>=-eq-ok (run_mine repo catalog (checked_rules packs rules) changed_files) _ h in
      ran ∙ ap ok (findings_of built)
    where
      findings_of :
          {fs : List CheckFinding} {c : Option CoverageInfo} {r : CombinedResult}
          → ◌≡◌ {A = Result CombinedResult} (ok (record { findings = fs; coverage = c })) (ok r)
          → fs ≡ r.findings
      findings_of {fs} {c} {r} h = ap findings_or h
        where
          findings_or : Result CombinedResult → List CheckFinding
          findings_or (ok r) = r.findings
          findings_or (raised e) = fs

  -- With known rules, enforcement maps for all packs, and a run of the detectors that raises nothing,
  -- `main` prints a report and ends with status 1 exactly when a selected rule of the catalogue that
  -- the packs check has a detector that reports, on a readable source of its language in scope, a
  -- finding whose rule is enforced by a checker. Otherwise it ends with status 0. It raises no
  -- `KeyError`.
  pub main_with-status :
      (args : Args) (packs : List Pack) {result : CombinedResult} {m : Dict Text Text}
      → any (λ r. not (mem r (all_check_rule_ids packs))) (selected_rules host packs args.rule)
        ≡ false
      → run_check host repo catalog
          (selected_rules host packs args.rule)
          args.changed_file
          args.override_file
          packs
        ≡ ok result
      → merge_enforcement packs ≡ ok m
      → (r : Report) × (main_with host repo catalog root args packs
          ≡ ok (record { status = status_of r.passed; report = some r }))
        × (r.passed
            ≡ not (
                any
                  (λ rid. selects (gates m) repo args.changed_file (lookup rid catalog))
                  (checked_rules packs (selected_rules host packs args.rule))))
  unfolding main_with after_run
  main_with-status args packs {result} {m} known ran merged =
      let selected : List Text = selected_rules host packs args.rule in
      let (r, built, passed) =
        build_report_total host packs (shown_collisions repo root args.report_collisions) selected
          result merged (Known-of_none packs selected known) in
      (
        r,
        rw (known, ran, built) refl,
        passed
            ∙ ap not (
                any-run_mine (gates m) repo args.changed_file catalog _
                  (run_check-findings selected args.changed_file args.override_file packs ran)),
      )
