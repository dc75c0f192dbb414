-- ===== src/Checkers/Run/Findings.antt =====
-- What a run reports: nothing is lost or added by grouping the detectors by language.
use deslop.Prelude.{
  Bool, false, ◌||◌, List, [], ◌∷◌, ◌++◌, Text, Option, none, some, any, ◌==◌, nat_eq, list_eq, ◌≡◌,
  refl, arith, Bool-cases, inl, inr, sym, ◌∙◌, list_beq_iff, ap, any-append, any-map, any_swap,
  any-false, Dict, lookup, assign, Option-cases,
}
use deslop.Errors.{Result, ok, raised, ◌>>=◌}
use deslop.Checkers.Run.{
  Entry, Repo, Detector, Detected, hits, missing, failed, CheckFinding, check_finding, report_hits,
  run_detectors, run_source, run_sources, run_langs, run_mine, group_by_lang, add_detector, listed,
  iter_sources,
}

or_false : (a : Bool) → (a || false) ≡ a
or_false a = ground arith

or_false_right : (a b : Bool) → a ≡ b → (a || false) ≡ b
or_false_right a b h = ground arith

or_assoc : (a b c : Bool) → ((a || b) || c) ≡ (a || (b || c))
or_assoc a b c = ground arith

or_swap : (a b c d : Bool) → c ≡ (a || d) → (c || b) ≡ ((a || b) || d)
or_swap a b c d h = ground arith

or_tail : (a b c d : Bool) → d ≡ (b || c) → (a || d) ≡ ((a || b) || c)
or_tail a b c d h = ground arith

module _ (P : CheckFinding → Bool) where
  abbrev reports_hits : Entry → Detected → Bool
  reports_hits e (hits found) = any (λ h. P (check_finding e h)) found
  reports_hits e (missing _) = false
  reports_hits e (failed _) = false

  abbrev reports_text : Detector → Entry → Option Text → Bool
  reports_text det e none = false
  reports_text det e (some source) = reports_hits e (det.detect source e.abs)

  -- The detector has a finding with `P` on the source.
  abbrev pub reports : Detector → Entry → Bool
  reports det e = reports_text det e e.text

  any-report_hits :
      (det : Detector) (e : Entry) (d : Detected) {fs : List CheckFinding}
      → report_hits det e d ≡ ok fs
      → any P fs ≡ reports_hits e d
  any-report_hits det e (hits found) h = rw (← ok-inj h) (any-map P (check_finding e) found)
    where
      ok-inj :
          {a b : List CheckFinding} → ◌≡◌ {A = Result (List CheckFinding)} (ok a) (ok b) → a ≡ b
      ok-inj h = cc
  any-report_hits det e (missing _) h = cc
  any-report_hits det e (failed _) h = cc

  -- Two successful runs one after the other.
  any-both :
      (m k : Result (List CheckFinding)) {b c : Bool} {fs : List CheckFinding}
      → ((gs : List CheckFinding) → m ≡ ok gs → any P gs ≡ b)
      → ((gs : List CheckFinding) → k ≡ ok gs → any P gs ≡ c)
      → (m >>= λ found. k >>= λ rest. ok (found ++ rest)) ≡ ok fs
      → any P fs ≡ (b || c)
  any-both (ok xs) (ok ys) {b} {c} {fs} h h' e =
      let same : xs ++ ys ≡ fs = cc in rw (← same) (any-append P xs ys ∙ rw (h xs refl, h' ys refl))
  any-both (ok xs) (raised r) h h' e = cc
  any-both (raised r) k h h' e = cc

  any-run_detectors :
      (dets : List Detector) (e : Entry) (source : Text) (fs : List CheckFinding)
      → run_detectors dets e source ≡ ok fs
      → any P fs ≡ any (λ det. reports_hits e (det.detect source e.abs)) dets
  unfolding run_detectors
  any-run_detectors [] e source fs h = ground arith
  any-run_detectors (det ∷ dets) e source fs h =
      any-both _ _ (λ gs q. any-report_hits det e (det.detect source e.abs) q)
        (any-run_detectors dets e source) h

  any-run_source :
      (dets : List Detector) (e : Entry) (t : Option Text) (fs : List CheckFinding)
      → run_source dets e t ≡ ok fs
      → any P fs ≡ any (λ det. reports_text det e t) dets
  any-run_source dets e none fs h = let same : [] ≡ fs = cc in rw (← same) (sym (any-false dets))
  any-run_source dets e (some source) fs h = any-run_detectors dets e source fs h

  any-run_sources :
      (dets : List Detector) (es : List Entry) (fs : List CheckFinding)
      → run_sources dets es ≡ ok fs
      → any P fs ≡ any (λ e. any (λ det. reports det e) dets) es
  unfolding run_sources
  any-run_sources dets [] fs h = ground arith
  any-run_sources dets (e ∷ es) fs h =
      any-both _ _ (any-run_source dets e e.text) (any-run_sources dets es) h

  module _ (repo : Repo) (changed_files : List Text) where
    -- The detector has a finding with `P` on a source of the language.
    abbrev pub reports_in : Text → Detector → Bool
    reports_in lang det = any (reports det) (iter_sources repo lang changed_files)

    abbrev group_reports : Text × List Detector → Bool
    group_reports (lang, dets) = any (reports_in lang) dets

    any-run_langs :
        (by_lang : Dict Text (List Detector)) (fs : List CheckFinding)
        → run_langs repo changed_files by_lang ≡ ok fs
        → any P fs ≡ any group_reports by_lang
    unfolding run_langs
    any-run_langs [] fs h = ground arith
    any-run_langs ((lang, dets) ∷ by_lang) fs h =
        any-both _ _
          (λ gs q.
            any-run_sources dets _ gs q
            ∙ any_swap (λ e det. reports det e) (iter_sources repo lang changed_files) dets)
          (any-run_langs by_lang) h

    any-assign :
        (lang : Text) (dets : List Detector) (b : Bool) (by_lang : Dict Text (List Detector))
        → any (reports_in lang) dets ≡ (any (reports_in lang) (listed (lookup lang by_lang)) || b)
        → any group_reports (assign lang dets by_lang) ≡ (any group_reports by_lang || b)
    unfolding assign lookup
    any-assign lang dets b [] h = or_false_right _ _ h
    any-assign lang dets b ((l, old) ∷ by_lang) h = elim (Bool-cases (l == lang)) [
      | inl same ↦ rw same (
          or_swap _ _ _ _ (
            ap (λ k. any (reports_in k) dets) ((list_beq_iff l lang).0 same)
            ∙ rw same at h
            ∙ ap (λ k. any (reports_in k) old || b) (sym ((list_beq_iff l lang).0 same))))
      | inr other ↦ rw other (or_tail _ _ _ _ (any-assign lang dets b by_lang (rw other at h)))
    ]

    any-add_detector :
        (det : Detector) (by_lang : Dict Text (List Detector))
        → any group_reports (add_detector det by_lang)
          ≡ (any group_reports by_lang || reports_in det.lang det)
    any-add_detector det by_lang = any-assign det.lang _ _ by_lang (
        any-append (reports_in det.lang) (listed (lookup det.lang by_lang)) (det ∷ [])
        ∙ ap (any (reports_in det.lang) (listed (lookup det.lang by_lang)) ||◌) (or_false _))

    abbrev pub selects : Option Detector → Bool
    selects none = false
    selects (some det) = reports_in det.lang det

    any-group_by_lang :
        (catalog : Dict Text Detector) (rids : List Text) (by_lang : Dict Text (List Detector))
        → any group_reports (group_by_lang catalog rids by_lang)
          ≡ (any group_reports by_lang || any (λ rid. selects (lookup rid catalog)) rids)
    unfolding group_by_lang
    any-group_by_lang catalog [] by_lang = ground arith
    any-group_by_lang catalog (rid ∷ rids) by_lang = elim (Option-cases (lookup rid catalog)) [
      | inl absent ↦ rw (absent, group_by_lang) (any-group_by_lang catalog rids by_lang)
      | inr (det, found) ↦
          rw (found, group_by_lang)
            (any-group_by_lang catalog rids (add_detector det by_lang)
              ∙ rw any-add_detector (
                  or_assoc (any group_reports by_lang) (reports_in det.lang det)
                    (any (λ r. selects (lookup r catalog)) rids)))
    ]

    -- A run that ends with findings has one with a given property exactly when a selected rule of
    -- the catalogue has a detector that reports one on a readable source of its language in scope.
    pub any-run_mine :
        (catalog : Dict Text Detector) (rule_ids : List Text) {fs : List CheckFinding}
        → run_mine repo catalog rule_ids changed_files ≡ ok fs
        → any P fs ≡ any (λ rid. selects (lookup rid catalog)) rule_ids
    unfolding run_mine
    any-run_mine catalog rule_ids {fs} h =
        any-run_langs (group_by_lang catalog rule_ids []) fs h
        ∙ any-group_by_lang catalog rule_ids []
