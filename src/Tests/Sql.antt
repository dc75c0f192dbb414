-- ===== src/Tests/Sql.antt =====
-- The detectors of dynamic SQL and of blocking calls.
use deslop.Prelude.{
  ℕ, Bool, true, false, [], ◌∷◌, Text, String, codes, Option, none, some, mem, ◌≡◌, nat_eq, list_eq,
  list_beq, lookup, split, replace, contains, starts_with, ends_with, after_last, All, assign,
}
use deslop.Texts.Strip.{strip, lstrip, rstrip, strip_chars, is_space}
use deslop.Checkers.Common.{is_skipped, is_test_path, test_suffix}
use deslop.Goast.{is_skipped as is_skipped_go}
use deslop.Pyast.Facts.{Call, Facts}
use deslop.Detectors.Laws.{lines}
use deslop.Detectors.Handlers.{
  Facts as GoFacts, callee_last, lhs_map_onto, expanded_args, assigned_args,
}
use deslop.Detectors.Python.{is_route}
use deslop.Detectors.Python.Blocking.{detect_blocking, blocking_rule, blocking_call}
use deslop.Detectors.Python.Blocking.Laws.{detect_blocking-lines}
use deslop.Detectors.Sql.Python.{detect_dynamic, is_sql_surface, statement}
use deslop.Detectors.Sql.Go.{detect_go, is_dynamic}
use deslop.Detectors.Sql.Laws.{sql-Exact}

abbrev call : String → ℕ → Option Text → Text → Call
call name at kind summary = record {
  name = codes name;
  line = some at;
  keywords = [];
  args_summary = [];
  keyword_values = [];
  has_starargs = false;
  has_kwargs = false;
  first_arg_kind = kind;
  first_arg_summary = some summary;
  in_try = false;
}

abbrev facts : Facts
facts = record {
  calls =
      call "db.Cursor.executemany" 3 (some (codes "fstring")) (codes "f'SELECT {x}'")
      ∷ call "db.executemany" 4 (some (codes "concat")) (codes "'SET ' + x")
      ∷ [];
  except_handlers = [];
  functions =
      record {
        name = codes "index";
        is_async = true;
        line_start = 6;
        line_end = 9;
        decorators = codes "app.get(\"/\")" ∷ [];
        calls = call "time.sleep" 7 none [] ∷ call "httpx.get" 8 none [] ∷ [];
      }
      ∷ [];
}

abbrev load : Text → Text → Option Facts
load source filename = some facts

abbrev go_facts : GoFacts
go_facts = record {
  functions =
      record {
        name = codes "List";
        params = [];
        calls =
            record {
              name = codes "db.QueryContext";
              line = some 5;
              args_summary = codes "ctx" ∷ codes "q" ∷ [];
            }
            ∷ [];
        go_stmts = [];
        assigns = record { lhs = codes "q"; rhs_summary = codes "\"SELECT \" + id" } ∷ [];
      }
      ∷ [];
}

abbrev load_go : Text → Text → Option GoFacts
load_go source filename = some go_facts

abbrev lower : Text → Text
lower s = s

abbrev pragma_secret : Text → Bool
pragma_secret s = contains s (codes "key =")

abbrev sql_verb : Text → Bool
sql_verb s = contains s (codes "SELECT")

abbrev ident_after_plus : Text → Bool
ident_after_plus s = contains s (codes "+ ")

sql-Exact_example :
    (mem 3 (lines (detect_dynamic lower pragma_secret load [] (codes "app"))) ≡ true)
    × (mem 5 (lines (detect_go sql_verb ident_after_plus (λ s. s) load_go [] (codes "app"))) ≡ true)
unfolding is_skipped is_skipped_go split replace mem list_beq contains is_test_path ends_with
    after_last test_suffix is_sql_surface statement callee_last expanded_args assigned_args lookup
    lhs_map_onto is_dynamic assign starts_with lstrip rstrip strip strip_chars
sql-Exact_example = (
  (sql-Exact lower pragma_secret sql_verb ident_after_plus (λ s. s) load load_go []
        (codes "app")).0.lines_hit
      3,
  (sql-Exact lower pragma_secret sql_verb ident_after_plus (λ s. s) load load_go []
        (codes "app")).1.lines_hit
      5,
)

detect_blocking-lines_example :
    (mem 7 (lines (detect_blocking load [] (codes "app.py"))) ≡ true)
    × All (λ f. f.rule_id ≡ blocking_rule) (detect_blocking load [] (codes "app.py"))
unfolding is_skipped split replace mem list_beq contains is_test_path ends_with after_last
    test_suffix is_route lstrip blocking_call starts_with is_space
detect_blocking-lines_example = (
  (detect_blocking-lines load [] (codes "app.py")).0 7,
  (detect_blocking-lines load [] (codes "app.py")).1,
)
