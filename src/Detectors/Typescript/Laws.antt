-- ===== src/Detectors/Typescript/Laws.antt =====
-- Which lines the TypeScript detectors report.
use deslop.Prelude.{
  ℕ, Bool, true, false, ◌&&◌, ◌||◌, not, List, [], ◌∷◌, map, Text, codes, Option, none, some, mem,
  any, keep, if◌then◌else◌, ◌==◌, nat_eq, list_eq, ◌≡◌, refl, arith, ap, Option-cases, inl, inr,
}
use deslop.Checkers.Common.{Finding}
use deslop.Tsast.{is_out_of_scope}
use deslop.Detectors.{Item, line_or_one, detect_in}
use deslop.Detectors.Laws.{Exact, in_facts, detect_in-Exact, any-items, is_some, lines}
use deslop.Detectors.Typescript.{
  Facts, is_heavy, import_item, effect_item, pairs, mixed, mixed_message, element_item, fetch_names,
  fetch_item, is_false, catch_item, report_each, import_rule, effect_rule, element_rule, fetch_rule,
  catch_rule, detect_import, detect_effect, detect_element, detect_fetch, detect_catch,
}

abbrev told : (Text × Text) → List Text → Bool
told (a, b) names = mem a names && mem b names

is_some-mixed :
    (tag : Text) (names : List Text) (ps : List (Text × Text))
    → is_some (mixed_message tag (mixed names ps)) ≡ any (λ p. told p names) ps
unfolding mixed
is_some-mixed tag names [] = refl
is_some-mixed tag names ((a, b) ∷ ps) =
    by_case (mem a names && mem b names) _ (is_some-mixed tag names ps)
  where
    by_case :
        (c : Bool) (o : Option (Text × Text)) {r : Bool}
        → is_some (mixed_message tag o) ≡ r
        → is_some (mixed_message tag (if c then some (a, b) else o)) ≡ (c || r)
    by_case true o h = refl
    by_case false o h = h

pub lines-report_each :
    {A : Type 0} (rule_id : Text) (item : A → Item) (hit : A → Bool) (xs : List A)
    → ((a : A) → is_some (item a).message ≡ hit a)
    → lines (report_each rule_id (map item xs)) ≡ map (λ a. (item a).line) (keep hit xs)
unfolding report_each
lines-report_each rule_id item hit [] h = refl
lines-report_each rule_id item hit (a ∷ xs) h = elim (Option-cases (item a).message) [
  | inl quiet ↦
      rw (quiet, report_each) (rw (← h a) (rw quiet (lines-report_each rule_id item hit xs h)))
  | inr (m, said) ↦
      rw (said, report_each)
        (rw (← h a) (rw said (ap ((item a).line ∷◌) (lines-report_each rule_id item hit xs h))))
]

-- What a detector reports of facts that are there, in a file in scope.
abbrev pub facts_lines {ℓ} : {A : Type ℓ} → Bool → Option A → (A → List ℕ) → List ℕ
facts_lines true facts found = []
facts_lines false none found = []
facts_lines false (some facts) found = found facts

pub lines-detect_in {ℓ} :
    {A : Type ℓ} (skip : Bool) (facts : Option A) (found : A → List Finding) (reported : A → List ℕ)
    → ((f : A) → lines (found f) ≡ reported f)
    → lines (detect_in skip facts found) ≡ facts_lines skip facts reported
lines-detect_in true facts found reported h = refl
lines-detect_in false none found reported h = refl
lines-detect_in false (some facts) found reported h = h facts

-- The lines of the calls of the global fetch that are known to pass no signal.
abbrev pub unsignalled : Facts → List ℕ
unsignalled facts =
    map (λ c. line_or_one c.line)
      (keep
        (λ c.
          mem c.name fetch_names
          && not (
              c.callee_is_local
              || ((c.has_signal_option || c.resolved_signal) || c.options_unknown)))
        facts.calls)

-- The lines of the empty catches in handlers, unless the `try` is known to call nothing.
abbrev pub swallowing : Facts → List ℕ
swallowing facts =
    map (λ c. line_or_one c.line)
      (keep (λ c. c.body_empty && (c.in_handler && not (is_false c.try_has_call)))
        facts.catch_clauses)

module _ (load_facts : Text → Text → Option Facts) where
  -- The file is in scope, and its facts hit.
  abbrev pub ts_lines : (Facts → ℕ → Bool) → Text → Text → ℕ → Bool
  ts_lines hit source filename n =
      in_facts (is_out_of_scope filename false) (load_facts source filename) (λ facts. hit facts n)

  abbrev pub import_lines : Text → Text → ℕ → Bool
  import_lines = ts_lines (λ facts n.
      any
        (λ i.
          (line_or_one i.line == n)
          && ((i.kind == codes "static") && (not i.is_type_only && is_heavy i.source)))
        facts.imports)

  abbrev pub effect_lines : Text → Text → ℕ → Bool
  effect_lines = ts_lines (λ facts n.
      any
        (λ e.
          (line_or_one e.line == n)
          && ((e.has_timeout || e.has_interval)
              && not (e.has_cleanup_timer || e.has_cleanup_abort)))
        facts.effects)

  abbrev pub element_lines : Text → Text → ℕ → Bool
  element_lines = ts_lines (λ facts n.
      any
        (λ el. (line_or_one el.line == n) && any (λ p. mem p.0 el.attrs && mem p.1 el.attrs) pairs)
        facts.jsx)

  -- In TypeScript files in scope with facts, three detectors have one finding for each line with,
  -- respectively: a static import of a heavy package that is not for types alone; an effect that sets a
  -- timer and cleans up neither by clearing nor by aborting; an element with both attributes of a pair.
  -- They have no other finding. The detector of fetch reports, in order and each time, the calls of the
  -- global fetch that are known to pass no signal, and the detector of empty catches those in handlers,
  -- unless the `try` is known to call nothing.
  pub typescript-Exact :
      (source filename : Text)
      → Exact import_rule (import_lines source filename) (detect_import load_facts source filename)
        × Exact effect_rule
            (effect_lines source filename)
            (detect_effect load_facts source filename)
        × Exact element_rule
            (element_lines source filename)
            (detect_element load_facts source filename)
        × (lines (detect_fetch load_facts source filename)
            ≡ facts_lines (is_out_of_scope filename false) (load_facts source filename) unsignalled)
        × (lines (detect_catch load_facts source filename)
            ≡ facts_lines (is_out_of_scope filename false) (load_facts source filename) swallowing)
  unfolding detect_import detect_effect detect_element import_item effect_item element_item
      detect_fetch detect_catch fetch_item catch_item
  typescript-Exact source filename = (
    detect_in-Exact import_rule _ _ _ _
        (λ facts n. any-items n import_item _ facts.imports (λ i. ground arith)),
    detect_in-Exact effect_rule _ _ _ _
        (λ facts n. any-items n effect_item _ facts.effects (λ e. ground arith)),
    detect_in-Exact element_rule _ _ _ _ (λ facts n.
        any-items n element_item _ facts.jsx
          (λ el. ap ((line_or_one el.line == n) &&◌) (is_some-mixed el.tag el.attrs pairs))),
    lines-detect_in (is_out_of_scope filename false) (load_facts source filename) _ _
        (λ facts. lines-report_each fetch_rule fetch_item _ facts.calls (λ c. ground arith)),
    lines-detect_in (is_out_of_scope filename false) (load_facts source filename) _ _ (λ facts.
        lines-report_each catch_rule catch_item _ facts.catch_clauses (λ c. ground arith)),
  )
