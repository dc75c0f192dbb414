-- ===== src/Tests/Python.antt =====
-- The Python detectors.
use deslop.Prelude.{
  ℕ, true, false, [], ◌∷◌, Text, String, codes, Option, none, some, mem, ◌≡◌, refl, nat_eq, list_eq,
  list_beq, lookup, split, replace, contains, starts_with, ends_with, after_last,
}
use deslop.Texts.Strip.{strip}
use deslop.Checkers.Common.{is_skipped, is_test_path, test_suffix}
use deslop.Pyast.{resolve, visit_import, visit_import_from}
use deslop.Pyast.Laws.{resolve-imports}
use deslop.Detectors.Laws.{lines}
use deslop.Pyast.Facts.{Call, Facts}
use deslop.Detectors.Python.{python, is_route}
use deslop.Detectors.Python.Timeouts.{detect_httpx, detect_requests, timeouts-Exact, timeout}
use deslop.Detectors.Python.Swallow.{detect_swallow, detect_swallow-Exact, types}
use deslop.Detectors.Python.Routes.{detect_ctor, detect_json, routes-Exact, is_request_json}
use deslop.Detectors.Python.Below.{detect_below}

abbrev call : String → ℕ → Call
call name at = record {
  name = codes name;
  line = some at;
  keywords = timeout ∷ [];
  keyword_values = (timeout, codes " None") ∷ [];
  has_starargs = false;
  has_kwargs = false;
  in_try = false;
  args_summary = [];
  first_arg_kind = none;
  first_arg_summary = none;
}

abbrev facts : Facts
facts = record {
  calls = call "httpx.Client" 3 ∷ call "requests.get" 4 ∷ call "httpx.Client" 3 ∷ [];
  except_handlers =
      record {
        line = none;
        type = some (codes "ValueError | builtins.Exception");
        body_kind = codes "pass";
        in_function = some (codes "close");
      }
      ∷ [];
  functions =
      record {
        name = codes "index";
        is_async = false;
        line_start = 6;
        line_end = 8;
        decorators = codes "app.get (\"/\")" ∷ [];
        calls = call "requests.Session" 7 ∷ call "flask.request.json" 8 ∷ [];
      }
      ∷ [];
}

abbrev load : Text → Text → Option Facts
load source filename = some facts

abbrev app : Text
app = codes "/repo/app.py"

in_scope : is_skipped app python false ≡ false
unfolding is_skipped is_test_path test_suffix split replace mem list_beq contains starts_with
    ends_with after_last
in_scope = refl

timeouts-Exact_example :
    (mem 3 (lines (detect_httpx load [] app)) ≡ true)
    × (mem 4 (lines (detect_requests load [] app)) ≡ true)
unfolding is_skipped is_test_path test_suffix split replace mem list_beq contains starts_with
    ends_with after_last lookup strip is_route types is_request_json
timeouts-Exact_example =
    ((timeouts-Exact load [] app).0.lines_hit 3, (timeouts-Exact load [] app).1.lines_hit 4)

detect_swallow-Exact_example : mem 1 (lines (detect_swallow load [] app)) ≡ true
unfolding is_skipped is_test_path test_suffix split replace mem list_beq contains starts_with
    ends_with after_last lookup strip is_route types is_request_json
detect_swallow-Exact_example = (detect_swallow-Exact load [] app).lines_hit 1

routes-Exact_example :
    (mem 7 (lines (detect_ctor load [] app)) ≡ true)
    × (mem 8 (lines (detect_json load [] app)) ≡ true)
unfolding is_skipped is_test_path test_suffix split replace mem list_beq contains starts_with
    ends_with after_last lookup strip is_route types is_request_json
routes-Exact_example =
    ((routes-Exact load [] app).0.lines_hit 7, (routes-Exact load [] app).1.lines_hit 8)

detect_below_example :
    (detect_httpx load [] (codes "/ci/build/app.py") ≡ [])
    × (detect_requests load [] (codes "/ci/build/app.py") ≡ [])
    × (detect_swallow load [] (codes "/ci/build/app.py") ≡ [])
    × (detect_ctor load [] (codes "/ci/build/app.py") ≡ [])
    × (detect_json load [] (codes "/ci/build/app.py") ≡ [])
unfolding is_skipped split replace mem list_beq
detect_below_example = detect_below load (codes "/ci/build") (codes "app.py") [] python refl

-- `import urllib.request`, with the others of one file.
resolve-imports_example :
    (resolve
        (codes "hx.get")
        (visit_import (record { name = codes "httpx"; asname = some (codes "hx") } ∷ []) [])
      ≡ codes "httpx.get")
    × (resolve (codes "api.get") (
          visit_import_from
            (some (codes "httpx"))
            (record { name = codes "api"; asname = none } ∷ [])
            [])
        ≡ codes "httpx.api.get")
    × (resolve
          (codes "urllib.request.get")
          (visit_import (record { name = codes "urllib.request"; asname = none } ∷ []) [])
        ≡ codes "urllib.request.request.get")
unfolding mem list_beq
resolve-imports_example =
    resolve-imports (codes "urllib") (codes "request") (codes "httpx") (codes "api") (codes "get")
      (codes "x") b'h' [] refl refl refl refl
