-- ===== src/Tests/Go.antt =====
-- The Go scope and the detectors of HTTP handlers.
use deslop.Prelude.{
  ℕ, Bool, true, false, [], ◌∷◌, Text, String, codes, Option, some, mem, ◌≡◌, refl, nat_eq, list_eq,
  list_beq, lookup, assign, split, replace, contains, starts_with, ends_with, after_last,
}
use deslop.Texts.Strip.{strip}
use deslop.Checkers.Common
use deslop.Goast.{is_skipped, has_package_clause, wrapped}
use deslop.Goast.Laws.{blank, line, block, fronts, wrapped-fronts, is_skipped-is_skipped}
use deslop.Detectors.Laws.{lines}
use deslop.Detectors.Handlers.{
  Call, Facts, is_handler, joined, lifecycle, roots_lifecycle, callee_last, lhs_map_onto,
  receives_context, detect_background, detect_http, detect_goroutine, detect_sql,
}
use deslop.Detectors.Handlers.Laws.{background-sql-Exact, http-goroutine-Exact}

is_skipped-is_skipped_example :
    Common.is_skipped (codes "pkg\\vendor\\a.go") (codes "go") false ≡ true
unfolding is_skipped split replace starts_with ends_with contains after_last
is_skipped-is_skipped_example = is_skipped-is_skipped (codes "pkg\\vendor\\a.go") refl

wrapped-fronts_example :
    (wrapped (codes "// a\n/* b\n*/ package x") ≡ codes "// a\n/* b\n*/ package x")
    × (has_package_clause (wrapped (codes "x := 1")) ≡ true)
unfolding fronts mem contains starts_with
wrapped-fronts_example =
    wrapped-fronts (line (codes " a") ∷ block (codes " b\n") ∷ blank b' ' ∷ []) (codes " x")
      (codes "x := 1") (refl, (refl, (refl, tt)))

abbrev call : String → ℕ → Call
call name at = record { name = codes name; line = some at; args_summary = codes "q" ∷ [] }

abbrev facts : Facts
facts = record {
  functions =
      record {
        name = codes "Get";
        params = codes "w http.ResponseWriter" ∷ codes "r *http.Request" ∷ [];
        calls = call "context.TODO" 3 ∷ call "http.Get" 4 ∷ call "db.Query" 5 ∷ [];
        go_stmts =
            record { has_context = false; call_summary = codes "work()"; line = some 6 } ∷ [];
        assigns = record { lhs = codes "q"; rhs_summary = codes "SELECT 1" } ∷ [];
      }
      ∷ [];
}

abbrev load : Text → Text → Option Facts
load source filename = some facts

abbrev main_go : Text
main_go = codes "main.go"

abbrev sql_verb : Text → Bool
sql_verb t = contains t (codes "SELECT")

abbrev ctx_ident : Text → Bool
ctx_ident t = contains t (codes "ctx")

http-goroutine-Exact_example :
    (mem 4 (lines (detect_http load [] main_go)) ≡ true)
    × (mem 6 (lines (detect_goroutine load ctx_ident [] main_go)) ≡ true)
unfolding is_skipped ends_with after_last split replace starts_with contains is_handler joined
    receives_context lifecycle mem list_beq lookup assign roots_lifecycle callee_last lhs_map_onto
    strip
http-goroutine-Exact_example = (
  (http-goroutine-Exact load ctx_ident [] main_go).0.lines_hit 4,
  (http-goroutine-Exact load ctx_ident [] main_go).1.lines_hit 6,
)

background-sql-Exact_example :
    (mem 3 (lines (detect_background load [] main_go)) ≡ true)
    × (mem 5 (lines (detect_sql load sql_verb [] main_go)) ≡ true)
unfolding is_skipped ends_with after_last split replace starts_with contains is_handler joined
    receives_context lifecycle mem list_beq lookup assign roots_lifecycle callee_last lhs_map_onto
    strip
background-sql-Exact_example = (
  (background-sql-Exact load sql_verb [] main_go).0.lines_hit 3,
  (background-sql-Exact load sql_verb [] main_go).1.lines_hit 5,
)
