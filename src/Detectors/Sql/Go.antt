-- ===== src/Detectors/Sql/Go.antt =====
-- checkers/no_go_dynamic_sql_execution.py. The searches of its regular expressions are parameters.
use deslop.Prelude.{
  Bool, true, false, ◌&&◌, ◌||◌, not, List, [], ◌∷◌, ◌++◌, map, Text, codes, Option, none, some,
  mem, any, keep, contains, ends_with, if◌then◌else◌, nat_eq, list_eq,
}
use deslop.Checkers.Common.{Finding}
use deslop.Goast.{is_skipped}
use deslop.Detectors.{Item, line_or_one, report_once, each, detect_in}
use deslop.Detectors.Handlers.{Call, Function, Facts, joined, callee_last, expanded_args, or_text}

abbrev pub callees : List Text
callees =
    codes "Query"
    ∷ codes "QueryContext"
    ∷ codes "QueryRow"
    ∷ codes "QueryRowContext"
    ∷ codes "Exec"
    ∷ codes "ExecContext"
    ∷ []

abbrev pub ctx_methods : List Text
ctx_methods = codes "QueryContext" ∷ codes "ExecContext" ∷ codes "QueryRowContext" ∷ []

-- The argument in the place of the statement, where none looks like SQL.
abbrev pub first_arg : List Text → List Text
first_arg [] = []
first_arg (a ∷ args) = a ∷ []

abbrev pub slot : Bool → List Text → List Text
slot true (a ∷ b ∷ args) = b ∷ []
slot _ args = first_arg args

abbrev pub or_slot : List Text → Text → List Text → List Text
or_slot [] last args = slot (mem last ctx_methods) args
or_slot (a ∷ out) last args = a ∷ out

abbrev pub go_rule : Text
go_rule = codes "go.security.no-dynamic-sql-execution"

-- `sql_verb` and `ident_after_plus` are the searches of `_SQL_VERB` and `_IDENT_AFTER_PLUS`, and
-- `strip_lits` is `_strip_lits`, which substitutes by two expressions.
module _ (sql_verb ident_after_plus : Text → Bool) (strip_lits : Text → Text) where
  unfoldable pub sql_candidates : Text → List Text → List Text
  sql_candidates last args = or_slot (keep sql_verb args) last args

  unfoldable pub is_dynamic : Text → Bool
  is_dynamic summary =
      if contains summary (codes "fmt.Sprintf") || contains summary (codes "strings.Builder")
      then true
      else ident_after_plus (strip_lits summary)

  unfoldable pub builder_feeds_sql : Function → Call → Bool
  unfolding joined
  builder_feeds_sql fn call =
      if not (any (λ a. contains a (codes ".String()")) call.args_summary)
      then false
      else any (λ c. ends_with c.name (codes "WriteString") && sql_verb (joined c.args_summary))
          fn.calls

  unfoldable pub go_item : Function → Call → Item
  unfolding callee_last expanded_args sql_candidates is_dynamic builder_feeds_sql
  go_item fn call =
      let last = callee_last call.name in
      let candidates = sql_candidates last (expanded_args fn call.args_summary) in
      record {
        line = line_or_one call.line;
        message =
            if not (mem last callees)
            then none
            else if not (any (λ c. sql_verb c && is_dynamic c) candidates)
                && not (builder_feeds_sql fn call)
            then none
            else some (
                or_text call.name last
                ++ codes
                    " builds SQL with concatenation/sprintf/strings.Builder; use a literal with ?/$1");
      }

  unfoldable pub detect_go : (Text → Text → Option Facts) → Text → Text → List Finding
  unfolding go_item
  detect_go load_facts source filename =
      detect_in (is_skipped filename false) (load_facts source filename)
        (λ facts. report_once go_rule [] (each (λ fn. map (go_item fn) fn.calls) facts.functions))
