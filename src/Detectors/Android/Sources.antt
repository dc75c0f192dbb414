-- ===== src/Detectors/Android/Sources.antt =====
-- The detector of GlobalScope on the facts that the Kotlin scanner extracts of a source.
use deslop.Prelude.{
  ℕ, Bool, true, false, ◌&&◌, ◌||◌, not, List, [], ◌∷◌, Text, codes, some, mem, any, any-append,
  ◌==◌, nat_eq, list_eq, ◌≡◌, refl, arith, ◌∙◌, Bool-cases, inl, inr, ends_with,
}
use deslop.Checkers.Common.{is_skipped}
use deslop.Ktast.Blank.{blank_strings_and_comments}
use deslop.Ktast.Literals.{line_of}
use deslop.Ktast.Extract.{
  CallMatch, Patterns, Calls, before_first, call_skip, call_record, add_call, add_calls,
  extract_calls, extract_functions, extract_classes, facts_of, has_facts, load_facts,
}
use deslop.Detectors.Laws.{lines}
use deslop.Detectors.Android.{global_scope, detect_scope}
use deslop.Detectors.Android.Laws.{coroutines-Exact}

-- A match of a call that `_CALL_SKIP` lets pass.
abbrev pub kept : CallMatch → Bool
kept m = not (mem (before_first b'.' m.name) call_skip)

module _ (q : ℕ → Text → Bool) (text : Text) where
  any-add_call :
      (m : CallMatch) (s : Calls)
      → any (λ c. q c.line c.name) (add_call text m s).calls
        ≡ (any (λ c. q c.line c.name) s.calls || (kept m && q (line_of text m.start) m.name))
  unfolding add_call
  any-add_call m s = elim (Bool-cases (mem (before_first b'.' m.name) call_skip)) [
    | inl e ↦ rw e (ground arith)
    | inr e ↦ rw e (
        any-append (λ c. q c.line c.name) s.calls (call_record text m s.functions ∷ [])
        ∙ ground arith)
  ]

  any-add_calls :
      (ms : List CallMatch) (s : Calls)
      → any (λ c. q c.line c.name) (add_calls text ms s).calls ≡ (
          any (λ c. q c.line c.name) s.calls
          || any (λ m. kept m && q (line_of text m.start) m.name) ms)
  unfolding add_calls
  any-add_calls [] s = ground arith
  any-add_calls (m ∷ ms) s = any-add_calls ms (add_call text m s) ∙ ground (arith, any-add_call m s)

-- The call is of `GlobalScope.launch` or `GlobalScope.async`, qualified or not.
abbrev pub is_unscoped : Text → Bool
is_unscoped name = mem name global_scope || any (λ g. ends_with name (b'.' ∷ g)) global_scope

load_facts-in_scope :
    (re : Patterns) (lower : Text → Text) (source filename : Text)
    → has_facts lower filename ≡ true
    → load_facts re lower source filename ≡ some (facts_of re source)
unfolding load_facts
load_facts-in_scope re lower source filename e = rw e refl

-- On the facts that are extracted of a Kotlin source in scope, the detector has a finding for a line
-- exactly when `_CALL_RE` matches there, in the source without comments and literals, a call of
-- `GlobalScope.launch` or `GlobalScope.async`, qualified or not, whose first name is none of those that
-- are passed over, as `this` is.
pub detect_scope-source :
    (re : Patterns) (lower : Text → Text) (source filename : Text)
    → is_skipped filename (codes "android") false ≡ false
    → has_facts lower filename ≡ true
    → (n : ℕ)
    → mem n (lines (detect_scope (load_facts re lower) source filename))
      ≡ any
          (λ m.
            kept m
            && ((line_of (blank_strings_and_comments source) m.start == n) && is_unscoped m.name))
          (re.call_re (blank_strings_and_comments source))
unfolding facts_of extract_calls
detect_scope-source re lower source filename in_scope e n =
    (coroutines-Exact (load_facts re lower) source filename).0.lines_hit n
    ∙ rw (load_facts-in_scope re lower source filename e, in_scope)
        (any-add_calls (λ line name. (line == n) && is_unscoped name) blanked (re.call_re blanked)
          (record {
            calls = [];
            functions = extract_functions re blanked (extract_classes re blanked);
          }))
  where
    blanked : Text
    blanked = blank_strings_and_comments source
