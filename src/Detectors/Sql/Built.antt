-- ===== src/Detectors/Sql/Built.antt =====
-- Which lines the detector of dynamic SQL in Go reports.
use deslop.Prelude.{
  ℕ, Bool, true, false, ◌&&◌, ◌||◌, contains, List, [], ◌∷◌, Text, codes, Option, mem, any, keep,
  ends_with, ◌==◌, nat_eq, list_eq, ◌≡◌, refl, arith, sym, ◌∙◌,
}
use deslop.Goast.{is_skipped as is_skipped_go}
use deslop.Detectors.{line_or_one}
use deslop.Detectors.Laws.{Exact, in_facts, detect_in-Exact, any-items, any-each_items}
use deslop.Detectors.Handlers.{
  Call as GoCall, Function, joined, Facts as GoFacts, callee_last, expanded_args,
}
use deslop.Detectors.Sql.Go.{
  callees, ctx_methods, slot, or_slot, sql_candidates, is_dynamic, builder_feeds_sql, go_item,
  go_rule, detect_go,
}

any-keep :
    {A : Type 0} (v d : A → Bool) (xs : List A)
    → any (λ x. v x && d x) (keep v xs) ≡ any (λ x. v x && d x) xs
any-keep v d [] = refl
any-keep v d (x ∷ xs) = ground (arith, any-keep v d xs)

-- Where nothing is kept, no argument in a slot passes.
any-slot :
    (v d : Text → Bool) (b : Bool) (args : List Text)
    → any (λ x. v x && d x) args ≡ false
    → any (λ x. v x && d x) (slot b args) ≡ false
any-slot v d true [] h = h
any-slot v d true (x ∷ []) h = h
any-slot v d true (x ∷ y ∷ args) h = ground (arith, h)
any-slot v d false [] h = h
any-slot v d false (x ∷ args) h = ground (arith, h)

any-or_slot :
    (v d : Text → Bool) (last : Text) (args out : List Text)
    → any (λ x. v x && d x) out ≡ any (λ x. v x && d x) args
    → any (λ x. v x && d x) (or_slot out last args) ≡ any (λ x. v x && d x) args
any-or_slot v d last args [] h = any-slot v d (mem last ctx_methods) args (sym h) ∙ h
any-or_slot v d last args (x ∷ out) h = h

-- The methods that send a statement to a database.
abbrev query_methods : List Text
query_methods =
    codes "Exec"
    ∷ codes "ExecContext"
    ∷ codes "Query"
    ∷ codes "QueryContext"
    ∷ codes "QueryRow"
    ∷ codes "QueryRowContext"
    ∷ []

mem-callees : (m : Text) → mem m callees ≡ mem m query_methods
unfolding mem
mem-callees m = ground arith

-- The result of `.String()` is passed, and the function writes SQL with a method `WriteString`.
abbrev takes_built : (Text → Bool) → Function → GoCall → Bool
takes_built sql_verb fn c =
    any (λ d. sql_verb (joined d.args_summary) && ends_with d.name (codes "WriteString")) fn.calls
    && any (λ a. contains a (codes ".String()")) c.args_summary

any-both_comm :
    {A : Type 0} (v d : A → Bool) (xs : List A)
    → any (λ x. v x && d x) xs ≡ any (λ x. d x && v x) xs
any-both_comm v d [] = refl
any-both_comm v d (x ∷ xs) = ground (arith, any-both_comm v d xs)

module _ (sql_verb ident_after_plus : Text → Bool) (strip_lits : Text → Text) where
  builder_feeds_sql-takes_built :
      (fn : Function) (c : GoCall)
      → builder_feeds_sql sql_verb ident_after_plus strip_lits fn c ≡ takes_built sql_verb fn c
  unfolding builder_feeds_sql
  builder_feeds_sql-takes_built fn c = ground (
    arith,
    any-both_comm (λ d. ends_with d.name (codes "WriteString"))
        (λ d. sql_verb (joined d.args_summary)) fn.calls,
  )

  -- The text reads as SQL, and has an identifier behind a `+` outside of its literals, or names
  -- `fmt.Sprintf` or `strings.Builder`.
  abbrev is_built_sql : Text → Bool
  is_built_sql a =
      sql_verb a
      && (ident_after_plus (strip_lits a)
          || any (contains a) (codes "strings.Builder" ∷ codes "fmt.Sprintf" ∷ []))

  any-is_built_sql :
      (args : List Text)
      → any (λ a. sql_verb a && is_dynamic sql_verb ident_after_plus strip_lits a) args
        ≡ any is_built_sql args
  unfolding is_dynamic
  any-is_built_sql [] = refl
  any-is_built_sql (a ∷ args) = ground (arith, any-is_built_sql args)

  -- The preference for a slot makes no difference.
  any-sql_candidates :
      (last : Text) (args : List Text)
      → any
          (λ a. sql_verb a && is_dynamic sql_verb ident_after_plus strip_lits a)
          (sql_candidates sql_verb ident_after_plus strip_lits last args)
        ≡ any is_built_sql args
  unfolding sql_candidates
  any-sql_candidates last args =
      any-or_slot sql_verb _ last args (keep sql_verb args) (any-keep sql_verb _ args)
      ∙ any-is_built_sql args

  module _ (load_facts : Text → Text → Option GoFacts) where
    abbrev pub built_lines : Text → Text → ℕ → Bool
    built_lines source filename n =
        in_facts (is_skipped_go filename false) (load_facts source filename) (λ facts.
          any
            (λ fn.
              any
                (λ c.
                  (line_or_one c.line == n)
                  && (mem (callee_last c.name) query_methods
                      && (any is_built_sql (expanded_args fn c.args_summary)
                          || takes_built sql_verb fn c)))
                fn.calls)
            facts.functions)

    pub detect_go-Exact :
        (source filename : Text)
        → Exact go_rule
            (built_lines source filename)
            (detect_go sql_verb ident_after_plus strip_lits load_facts source filename)
    unfolding detect_go go_item
    detect_go-Exact source filename = detect_in-Exact _ _ _ _ _ (λ facts n.
        any-each_items n _ _ facts.functions (λ fn.
          any-items n (go_item sql_verb ident_after_plus strip_lits fn) _ fn.calls (λ c. ground (
            arith,
            mem-callees (callee_last c.name),
            builder_feeds_sql-takes_built fn c,
            any-sql_candidates (callee_last c.name) (expanded_args fn c.args_summary),
          ))))
