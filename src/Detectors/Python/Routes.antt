-- ===== src/Detectors/Python/Routes.antt =====
-- checkers/no_request_layer_outbound_client_construction.py and
-- checkers/no_route_request_json_without_invalid_json_guard.py: calls in route handlers.
use deslop.Prelude.{
  ℕ, ◌-◌, Bool, false, ◌&&◌, not, List, [], ◌∷◌, ◌++◌, map, Text, codes, Option, none, some, mem,
  any, take, length, ends_with, after_last, if◌then◌else◌, ◌==◌, nat_eq, list_eq, arith,
}
use deslop.Checkers.Common.{Finding, is_skipped}
use deslop.Detectors.{Item, line_or_one, report_once, each, detect_in}
use deslop.Detectors.Laws.{Exact, in_facts, detect_in-Exact, any-items, any-each_items, any-tested}
use deslop.Pyast.Facts.{Call, Function, Facts}
use deslop.Detectors.Python.{python, is_route}

abbrev pub ctors : List Text
ctors =
    codes "httpx.Client"
    ∷ codes "httpx.AsyncClient"
    ∷ codes "requests.Session"
    ∷ codes "requests.sessions.Session"
    ∷ []

unfoldable pub ctor_item : Call → Item
ctor_item call = record {
  line = line_or_one call.line;
  message =
      if not (mem call.name ctors)
      then none
      else some (
          call.name
          ++ codes
              " constructed inside a route handler; inject a shared client from lifespan/factory");
}

abbrev pub ctor_rule : Text
ctor_rule = codes "python.architecture.no-request-layer-outbound-client-construction"

-- `_is_request_json`, with `name[: -len(".json")]`
unfoldable pub is_request_json : Text → Bool
is_request_json name =
    if not (ends_with name (codes ".json"))
    then false
    else mem (after_last b'.' (take (length name - 5) name))
        (codes "request" ∷ codes "Request" ∷ [])

unfoldable pub json_item : Call → Item
json_item call = record {
  line = line_or_one call.line;
  message =
      if not (is_request_json call.name)
      then none
      else if call.in_try
      then none
      else some
          (call.name ++ codes " parses request JSON outside try; guard JSONDecodeError with a 400");
}

abbrev pub json_rule : Text
json_rule = codes "python.reliability.no-route-request-json-without-invalid-json-guard"

abbrev route_items : (Call → Item) → Function → List Item
route_items item fn = if is_route fn then map item fn.calls else []

module _ (load_facts : Text → Text → Option Facts) where
  unfoldable pub detect_ctor : Text → Text → List Finding
  detect_ctor source filename =
      detect_in (is_skipped filename python false) (load_facts source filename)
        (λ facts. report_once ctor_rule [] (each (route_items ctor_item) facts.functions))

  unfoldable pub detect_json : Text → Text → List Finding
  detect_json source filename =
      detect_in (is_skipped filename python false) (load_facts source filename)
        (λ facts. report_once json_rule [] (each (route_items json_item) facts.functions))

  abbrev pub ctor_lines : Text → Text → ℕ → Bool
  ctor_lines source filename = λ n.
      in_facts (is_skipped filename python false) (load_facts source filename) (λ facts.
        any (λ fn. is_route fn && any (λ c. (line_or_one c.line == n) && mem c.name ctors) fn.calls)
          facts.functions)

  detect_ctor-Exact :
      (source filename : Text)
      → Exact ctor_rule (ctor_lines source filename) (detect_ctor source filename)
  unfolding detect_ctor ctor_item
  detect_ctor-Exact source filename = detect_in-Exact ctor_rule _ _ _ _ (λ facts n.
      any-each_items n _ _ facts.functions
        (λ fn. any-tested n (is_route fn) _ (any-items n ctor_item _ fn.calls (λ c. ground arith))))

  abbrev pub json_lines : Text → Text → ℕ → Bool
  json_lines source filename = λ n.
      in_facts (is_skipped filename python false) (load_facts source filename) (λ facts.
        any
          (λ fn.
            is_route fn
            && any (λ c. (line_or_one c.line == n) && (is_request_json c.name && not c.in_try))
                fn.calls)
          facts.functions)

  detect_json-Exact :
      (source filename : Text)
      → Exact json_rule (json_lines source filename) (detect_json source filename)
  unfolding detect_json json_item
  detect_json-Exact source filename = detect_in-Exact json_rule _ _ _ _ (λ facts n.
      any-each_items n _ _ facts.functions
        (λ fn. any-tested n (is_route fn) _ (any-items n json_item _ fn.calls (λ c. ground arith))))

  -- In a file in scope with facts, and among functions with a route decorator, one detector has one
  -- finding for each line with a construction of an outbound client, and the other one for each line
  -- that reads the request's JSON outside a `try`, and they have no other finding.
  pub routes-Exact :
      (source filename : Text)
      → Exact ctor_rule (ctor_lines source filename) (detect_ctor source filename)
        × Exact json_rule (json_lines source filename) (detect_json source filename)
  routes-Exact source filename =
      (detect_ctor-Exact source filename, detect_json-Exact source filename)
