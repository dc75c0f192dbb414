-- ===== src/Detectors/Python/Timeouts.antt =====
-- checkers/no_httpx_client_without_explicit_timeout.py and
-- checkers/no_requests_call_without_timeout.py: calls that leave out a timeout.
use deslop.Prelude.{
  ℕ, Bool, true, false, ◌&&◌, ◌||◌, not, List, [], ◌∷◌, ◌++◌, map, Text, codes, Option, none, some,
  lookup, mem, any, if◌then◌else◌, ◌==◌, nat_eq, list_eq, ◌≡◌, arith,
}
use deslop.Texts.Strip.{strip}
use deslop.Checkers.Common.{Finding, is_skipped}
use deslop.Detectors.{Item, line_or_one, report_once, detect_in}
use deslop.Detectors.Laws.{Exact, in_facts, detect_in-Exact, any-items}
use deslop.Pyast.Facts.{Call, Facts}
use deslop.Detectors.Python.{python}

abbrev pub timeout : Text
timeout = codes "timeout"

abbrev is_not_none : Option Text → Bool
is_not_none none = true
is_not_none (some raw) = not (strip raw == codes "None")

-- `_timeout_ok`, the same in both modules
unfoldable pub timeout_ok : Call → Bool
timeout_ok call =
    if mem timeout call.keywords then is_not_none (lookup timeout call.keyword_values) else false

abbrev or_empty : Option Text → Text
or_empty none = []
or_empty (some t) = t

-- The test that chooses the message.
unfoldable pub passes_none : Call → Bool
passes_none call =
    mem timeout call.keywords
    && strip (or_empty (lookup timeout call.keyword_values)) == codes "None"

abbrev pub clients : List Text
clients = codes "httpx.AsyncClient" ∷ codes "httpx.Client" ∷ []

abbrev pub httpx_rule : Text
httpx_rule = codes "python.http.no-httpx-client-without-explicit-timeout"

abbrev httpx_message : Call → Text
httpx_message call =
    if passes_none call
    then call.name ++ codes " constructed with timeout=None"
    else call.name ++ codes " constructed without explicit timeout="

unfoldable pub httpx_item : Call → Item
httpx_item call = record {
  line = line_or_one call.line;
  message =
      if not (mem call.name clients)
      then none
      else if timeout_ok call
      then none
      else some (httpx_message call);
}

abbrev pub methods : List Text
methods =
    codes "requests.get"
    ∷ codes "requests.post"
    ∷ codes "requests.put"
    ∷ codes "requests.patch"
    ∷ codes "requests.delete"
    ∷ codes "requests.head"
    ∷ codes "requests.options"
    ∷ codes "requests.request"
    ∷ codes "requests.api.get"
    ∷ codes "requests.api.post"
    ∷ codes "requests.api.put"
    ∷ codes "requests.api.patch"
    ∷ codes "requests.api.delete"
    ∷ codes "requests.api.head"
    ∷ codes "requests.api.options"
    ∷ codes "requests.api.request"
    ∷ []

abbrev pub requests_rule : Text
requests_rule = codes "python.http.no-requests-call-without-timeout"

abbrev requests_message : Call → Text
requests_message call =
    if passes_none call
    then call.name ++ codes " called with timeout=None"
    else call.name ++ codes " called without explicit timeout="

unfoldable pub requests_item : Call → Item
requests_item call = record {
  line = line_or_one call.line;
  message =
      if not (mem call.name methods)
      then none
      else if call.has_starargs || call.has_kwargs
      then none
      else if timeout_ok call
      then none
      else some (requests_message call);
}

-- The call names no timeout, or the timeout `None`.
abbrev pub is_none : Option Text → Bool
is_none none = false
is_none (some raw) = strip raw == codes "None"

abbrev pub untimed : Call → Bool
untimed call = not (mem timeout call.keywords) || is_none (lookup timeout call.keyword_values)

timeout_ok-untimed : (call : Call) → timeout_ok call ≡ not (untimed call)
unfolding timeout_ok
timeout_ok-untimed call = by_case (mem timeout call.keywords) (lookup timeout call.keyword_values)
  where
    by_case :
        (b : Bool) (o : Option Text)
        → (if b then is_not_none o else false) ≡ not (not b || is_none o)
    by_case b none = ground arith
    by_case b (some raw) = ground arith

module _ (load_facts : Text → Text → Option Facts) where
  unfoldable pub detect_httpx : Text → Text → List Finding
  detect_httpx source filename =
      detect_in (is_skipped filename python false) (load_facts source filename)
        (λ facts. report_once httpx_rule [] (map httpx_item facts.calls))

  unfoldable pub detect_requests : Text → Text → List Finding
  detect_requests source filename =
      detect_in (is_skipped filename python false) (load_facts source filename)
        (λ facts. report_once requests_rule [] (map requests_item facts.calls))

  abbrev pub httpx_lines : Text → Text → ℕ → Bool
  httpx_lines source filename = λ n.
      in_facts (is_skipped filename python false) (load_facts source filename) (λ facts.
        any (λ c. (line_or_one c.line == n) && (mem c.name clients && untimed c)) facts.calls)

  detect_httpx-Exact :
      (source filename : Text)
      → Exact httpx_rule (httpx_lines source filename) (detect_httpx source filename)
  unfolding detect_httpx httpx_item
  detect_httpx-Exact source filename =
      detect_in-Exact httpx_rule _ _ _ _ (λ facts n.
        any-items n httpx_item _ facts.calls (λ c. ground (arith, timeout_ok-untimed c)))

  abbrev pub requests_lines : Text → Text → ℕ → Bool
  requests_lines source filename = λ n.
      in_facts (is_skipped filename python false) (load_facts source filename) (λ facts.
        any
          (λ c.
            (line_or_one c.line == n)
            && (mem c.name methods && (not (c.has_starargs || c.has_kwargs) && untimed c)))
          facts.calls)

  detect_requests-Exact :
      (source filename : Text)
      → Exact requests_rule (requests_lines source filename) (detect_requests source filename)
  unfolding detect_requests requests_item
  detect_requests-Exact source filename = detect_in-Exact requests_rule _ _ _ _ (λ facts n.
      any-items n requests_item _ facts.calls (λ c. ground (arith, timeout_ok-untimed c)))

  -- The detector of httpx clients has one finding for each line with a construction of a client that
  -- passes no timeout or the timeout `None`, and that of requests one for each line with a call of a
  -- method of requests that spreads no arguments and passes no timeout or the timeout `None`, in a
  -- file in scope with facts, and they have no other finding.
  pub timeouts-Exact :
      (source filename : Text)
      → Exact httpx_rule (httpx_lines source filename) (detect_httpx source filename)
        × Exact requests_rule (requests_lines source filename) (detect_requests source filename)
  timeouts-Exact source filename =
      (detect_httpx-Exact source filename, detect_requests-Exact source filename)
