-- ===== src/Detectors/Handlers/Laws.antt =====
-- Which lines the detectors of HTTP handlers report.
use deslop.Prelude.{
  ℕ, Bool, false, ◌&&◌, ◌||◌, not, List, [], ◌∷◌, map, Text, Option, none, some, Dict, lookup, mem,
  contains, codes, any, any-append, keep, ◌==◌, nat_eq, list_eq, ◌≡◌, refl, arith,
}
use deslop.Texts.Strip.{strip}
use deslop.Goast.{is_skipped}
use deslop.Detectors.{Item, line_or_one}
use deslop.Detectors.Laws.{
  Exact, in_facts, detect_in-Exact, any-items, any-each_items, any-tested, hits_line,
}
use deslop.Detectors.Handlers.{
  GoStmt, Function, Facts, is_handler, lifecycle, background, roots_lifecycle, lifecycle_lines,
  line_or_zero, background_item, bare_http, http_item, callee_last, lhs_map_onto, assigned_args,
  found_arg, expanded_args, begins, sql_callees, sql_item, receives_context, goroutine_item,
  background_rule, http_rule, goroutine_rule, sql_rule, detect_handlers, detect_background,
  detect_http, detect_goroutine, detect_sql,
}

-- The line `n` is one of a function of the facts that is a handler and has `hit` there.
abbrev pub in_handlers : (Function → ℕ → Bool) → Facts → ℕ → Bool
in_handlers hit facts n = any (λ fn. is_handler fn && hit fn n) facts.functions

abbrev pub go_lines : (Text → Text → Option Facts) → (Function → ℕ → Bool) → Text → Text → ℕ → Bool
go_lines load_facts hit source filename n =
    in_facts (is_skipped filename false) (load_facts source filename)
      (λ facts. in_handlers hit facts n)

mem-map-keep :
    {A : Type 0} (n : ℕ) (f : A → ℕ) (p : A → Bool) (xs : List A)
    → mem n (map f (keep p xs)) ≡ any (λ x. p x && (f x == n)) xs
unfolding mem
mem-map-keep n f p [] = refl
mem-map-keep n f p (x ∷ xs) = ground (arith, mem-map-keep n f p xs)

any-assigned_args :
    (p : Text → Bool) (m : Dict Text Text) (args : List Text)
    → any p (assigned_args m args) ≡ any (λ a. any p (found_arg (lookup (strip a) m) [])) args
unfolding assigned_args
any-assigned_args p m [] = refl
any-assigned_args p m (a ∷ args) = by_case (lookup (strip a) m) _ (any-assigned_args p m args)
  where
    by_case :
        (o : Option Text) (rest : List Text) {b : Bool}
        → any p rest ≡ b
        → any p (found_arg o rest) ≡ (any p (found_arg o []) || b)
    by_case none rest h = h
    by_case (some rhs) rest h = ground arith

-- The statement has a context, or its text names one or asks for one or for its end.
abbrev has_request_context : (Text → Bool) → GoStmt → Bool
has_request_context ctx_ident gs =
    gs.has_context
    || (ctx_ident gs.call_summary
        || any (contains gs.call_summary) (codes ".Done()" ∷ codes "Context()" ∷ []))

receives_context-has_request_context :
    (ctx_ident : Text → Bool) (gs : GoStmt)
    → receives_context ctx_ident gs ≡ has_request_context ctx_ident gs
unfolding receives_context
receives_context-has_request_context ctx_ident gs = ground arith

module _ (load_facts : Text → Text → Option Facts) where
  detect_handlers-Exact :
      (rule_id : Text) (items : Function → List Item) (hit : Function → ℕ → Bool)
      (source filename : Text)
      → ((fn : Function) (n : ℕ) → any (hits_line n) (items fn) ≡ hit fn n)
      → Exact rule_id
          (go_lines load_facts hit source filename)
          (detect_handlers load_facts rule_id items source filename)
  detect_handlers-Exact rule_id items hit source filename h =
      detect_in-Exact rule_id _ _ _ _ (λ facts n.
        any-each_items n _ _ facts.functions (λ fn. any-tested n (is_handler fn) _ (h fn n)))

  abbrev pub background_lines : Text → Text → ℕ → Bool
  background_lines source filename =
      go_lines load_facts
        (λ fn n.
          any
            (λ c.
              (line_or_one c.line == n)
              && (mem c.name background
                  && not (any (λ d. roots_lifecycle d && (line_or_zero d.line == n)) fn.calls)))
            fn.calls)
        source filename

  detect_background-Exact :
      (source filename : Text)
      → Exact background_rule
          (background_lines source filename)
          (detect_background load_facts source filename)
  unfolding detect_background background_item lifecycle_lines
  detect_background-Exact source filename =
      detect_handlers-Exact background_rule _ _ source filename (λ fn n.
        any-items n _ _ fn.calls
          (λ c. ground (arith, mem-map-keep n (λ d. line_or_zero d.line) roots_lifecycle fn.calls)))

  abbrev pub http_lines : Text → Text → ℕ → Bool
  http_lines source filename =
      go_lines load_facts
        (λ fn n. any (λ c. (line_or_one c.line == n) && mem c.name bare_http) fn.calls) source
        filename

  detect_http-Exact :
      (source filename : Text)
      → Exact http_rule (http_lines source filename) (detect_http load_facts source filename)
  unfolding detect_http http_item
  detect_http-Exact source filename =
      detect_handlers-Exact http_rule _ _ source filename
        (λ fn n. any-items n http_item _ fn.calls (λ c. ground arith))

  abbrev pub goroutine_lines : (Text → Bool) → Text → Text → ℕ → Bool
  goroutine_lines ctx_ident source filename =
      go_lines load_facts
        (λ fn n.
          any
            (λ gs.
              (line_or_one gs.line == n)
              && not (has_request_context ctx_ident gs || lifecycle gs.call_summary))
            fn.go_stmts)
        source filename

  detect_goroutine-Exact :
      (ctx_ident : Text → Bool) (source filename : Text)
      → Exact goroutine_rule
          (goroutine_lines ctx_ident source filename)
          (detect_goroutine load_facts ctx_ident source filename)
  unfolding detect_goroutine goroutine_item
  detect_goroutine-Exact ctx_ident source filename =
      detect_handlers-Exact goroutine_rule _ _ source filename (λ fn n.
        any-items n (goroutine_item ctx_ident) _ fn.go_stmts
          (λ gs. ground (arith, receives_context-has_request_context ctx_ident gs)))

  abbrev pub query_lines : (Text → Bool) → Text → Text → ℕ → Bool
  query_lines sql_verb source filename =
      go_lines load_facts
        (λ fn n.
          any
            (λ c.
              (line_or_one c.line == n)
              && (mem (callee_last c.name) sql_callees
                  && (mem (callee_last c.name) begins
                      || (any sql_verb c.args_summary
                          || any
                              (λ a.
                                any sql_verb
                                  (found_arg (lookup (strip a) (lhs_map_onto [] fn.assigns)) []))
                              c.args_summary))))
            fn.calls)
        source filename

  detect_sql-Exact :
      (sql_verb : Text → Bool) (source filename : Text)
      → Exact sql_rule
          (query_lines sql_verb source filename)
          (detect_sql load_facts sql_verb source filename)
  unfolding detect_sql sql_item expanded_args
  detect_sql-Exact sql_verb source filename =
      detect_handlers-Exact sql_rule _ _ source filename (λ fn n.
        any-items n (sql_item sql_verb fn) _ fn.calls (λ c. ground (
          arith,
          any-append sql_verb c.args_summary
              (assigned_args (lhs_map_onto [] fn.assigns) c.args_summary),
          any-assigned_args sql_verb (lhs_map_onto [] fn.assigns) c.args_summary,
        )))

  -- In Go files in scope with facts, one detector has one finding for each line on which a handler
  -- calls a function of net/http that sends a request, and another one for each line on which a
  -- handler starts a goroutine that receives no context and is no lifecycle call, and they have no
  -- other finding.
  pub http-goroutine-Exact :
      (ctx_ident : Text → Bool) (source filename : Text)
      → Exact http_rule (http_lines source filename) (detect_http load_facts source filename)
        × Exact goroutine_rule
            (goroutine_lines ctx_ident source filename)
            (detect_goroutine load_facts ctx_ident source filename)
  http-goroutine-Exact ctx_ident source filename =
      (detect_http-Exact source filename, detect_goroutine-Exact ctx_ident source filename)

  -- In Go files in scope with facts, one detector has one finding for each line on which a handler
  -- calls `context.Background` or `context.TODO`, unless a lifecycle call of the same function that
  -- takes one of the two stands on that line, and another one for each line on which a handler begins
  -- a transaction, or queries or executes with an argument that reads as SQL, written out or as what
  -- the function last assigned to the argument. They have no other finding.
  pub background-sql-Exact :
      (sql_verb : Text → Bool) (source filename : Text)
      → Exact background_rule
          (background_lines source filename)
          (detect_background load_facts source filename)
        × Exact sql_rule
            (query_lines sql_verb source filename)
            (detect_sql load_facts sql_verb source filename)
  background-sql-Exact sql_verb source filename =
      (detect_background-Exact source filename, detect_sql-Exact sql_verb source filename)
