-- ===== src/Detectors/Android/Laws.antt =====
-- Which lines the Android detectors report.
use deslop.Prelude.{
  ℕ, Bool, true, false, ◌&&◌, ◌||◌, not, List, [], ◌∷◌, Text, codes, Option, none, some, mem, any,
  ends_with, if◌then◌else◌, ◌==◌, nat_eq, list_eq, ◌≡◌, refl, arith, ap,
}
use deslop.Checkers.Common.{is_skipped}
use deslop.Ktast.Facts.{Function, Facts, class_at, spans}
use deslop.Detectors.Laws.{Exact, in_facts, detect_in-Exact, any-items, is_some}
use deslop.Detectors.Android.{
  global_scope, is_global_scope, scope_item, scope_rule, is_runblocking, fns_at, is_okhttp_boundary,
  is_viewmodel, is_ui_owner, is_self_def, is_hot, runblocking_item, runblocking_rule, detect_scope,
  detect_runblocking,
}

-- A function of the list spans the line and has the property.
abbrev pub spanned : (Function → Bool) → ℕ → List Function → Bool
spanned p line functions = any (λ fn. spans line fn.line_start fn.line_end && p fn) functions

any-fns_at :
    (p : Function → Bool) (line : ℕ) (functions : List Function)
    → any p (fns_at line functions) ≡ spanned p line functions
unfolding fns_at
any-fns_at p line [] = refl
any-fns_at p line (fn ∷ functions) = by_case _ (p fn) _ (any-fns_at p line functions)
  where
    by_case :
        (b q : Bool) (xs : List Function) {r : Bool}
        → any p xs ≡ r
        → any p (if b then fn ∷ xs else xs) ≡ ((b && p fn) || r)
    by_case true q xs h = ap (p fn ||◌) h
    by_case false q xs h = h

-- The line is on a hot path: no preview spans it and its class is no boundary of OkHttp, and a
-- composable function spans it or its class is a view model or an owner of views.
abbrev pub hot_path : ℕ → Facts → Bool
hot_path line facts =
    not (is_okhttp_boundary (class_at line facts.classes))
    && (not (spanned (λ fn. fn.is_preview) line facts.functions)
        && (spanned (λ fn. fn.is_composable && not fn.is_preview) line facts.functions
            || (is_viewmodel (class_at line facts.classes)
                || is_ui_owner (class_at line facts.classes))))

is_hot-eq : (line : ℕ) (facts : Facts) → is_hot line facts ≡ hot_path line facts
unfolding is_hot
is_hot-eq line facts =
    rw
      (
        any-fns_at (λ fn. fn.is_preview) line facts.functions,
        any-fns_at (λ fn. fn.is_composable && not fn.is_preview) line facts.functions,
      )
      (by_case (is_okhttp_boundary (class_at line facts.classes))
        (spanned (λ fn. fn.is_preview) line facts.functions)
        (spanned (λ fn. fn.is_composable && not fn.is_preview) line facts.functions
          || (is_viewmodel (class_at line facts.classes)
              || is_ui_owner (class_at line facts.classes))))
  where
    by_case :
        (a b c : Bool) → (if a then false else if b then false else c) ≡ (not a && (not b && c))
    by_case a b c = ground arith

module _ (load_facts : Text → Text → Option Facts) where
  abbrev pub scope_lines : Text → Text → ℕ → Bool
  scope_lines source filename = λ n.
      in_facts (is_skipped filename (codes "android") false) (load_facts source filename) (λ facts.
        any
          (λ c.
            (c.line == n)
            && (mem c.name global_scope || any (λ g. ends_with c.name (b'.' ∷ g)) global_scope))
          facts.calls)

  detect_scope-Exact :
      (source filename : Text)
      → Exact scope_rule (scope_lines source filename) (detect_scope load_facts source filename)
  unfolding detect_scope scope_item is_global_scope
  detect_scope-Exact source filename =
      detect_in-Exact scope_rule _ _ _ _
        (λ facts n. any-items n scope_item _ facts.calls (λ c. ground arith))

  abbrev pub runblocking_lines : Text → Text → ℕ → Bool
  runblocking_lines source filename = λ n.
      in_facts (is_skipped filename (codes "android") false) (load_facts source filename) (λ facts.
        any
          (λ c.
            (c.line == n)
            && (is_runblocking c.name
                && (not (is_self_def c facts.functions) && hot_path c.line facts)))
          facts.calls)

  detect_runblocking-Exact :
      (source filename : Text)
      → Exact runblocking_rule
          (runblocking_lines source filename)
          (detect_runblocking load_facts source filename)
  unfolding detect_runblocking runblocking_item
  detect_runblocking-Exact source filename = detect_in-Exact runblocking_rule _ _ _ _ (λ facts n.
      any-items n (runblocking_item facts) _ facts.calls (λ c.
        by_case (c.line == n) (is_runblocking c.name) (is_self_def c facts.functions) _
          (is_hot-eq c.line facts)))
    where
      by_case :
          (l a b : Bool) (m : Text) {h k : Bool}
          → h ≡ k
          → (l
              && is_some
                  (if not a then none else if b then none else if not h then none else some m))
            ≡ (l && (a && (not b && k)))
      by_case l a b m e = ground arith

  -- In Android files in scope with facts, one detector has one finding for each line with a call of
  -- `GlobalScope.launch` or `GlobalScope.async`, qualified or not, and the other one for each line of a
  -- hot path with a call of `runBlocking` that is not the head of a function of that name, and they
  -- have no other finding.
  pub coroutines-Exact :
      (source filename : Text)
      → Exact scope_rule (scope_lines source filename) (detect_scope load_facts source filename)
        × Exact runblocking_rule
            (runblocking_lines source filename)
            (detect_runblocking load_facts source filename)
  coroutines-Exact source filename =
      (detect_scope-Exact source filename, detect_runblocking-Exact source filename)
