-- ===== src/Detectors/Python/Below.antt =====
-- The runner of checkers/run.py calls `detect` with the absolute path of a source, and the Python
-- detectors test that path again.
use deslop.Prelude.{Bool, true, false, List, [], ◌∷◌, ◌++◌, Text, Option, ◌≡◌, ap}
use deslop.Checkers.Common.{is_skipped, Finding}
use deslop.Checkers.Common.Paths.{is_skipped_below}
use deslop.Detectors.{detect_in}
use deslop.Pyast.Facts.{Facts}
use deslop.Detectors.Python.{python}
use deslop.Detectors.Python.Timeouts.{detect_httpx, detect_requests}
use deslop.Detectors.Python.Swallow.{detect_swallow}
use deslop.Detectors.Python.Routes.{detect_ctor, detect_json}

detect_in_skipped :
    {A : Type 0} (skip : Bool) (facts : Option A) (found : A → List Finding)
    → skip ≡ true
    → detect_in skip facts found ≡ []
detect_in_skipped skip facts found h = ap (λ b. detect_in b facts found) h

-- Below a directory whose path is skipped with tests included, as a path with a component `build` is,
-- the detectors of httpx clients, of calls of requests, of swallowed exceptions, of clients in routes
-- and of JSON in routes find nothing, whatever the source and the rest of its path are.
pub detect_below :
    (load_facts : Text → Text → Option Facts) (dir rest source lang : Text)
    → is_skipped dir lang true ≡ true
    → (detect_httpx load_facts source (dir ++ b'/' ∷ rest) ≡ [])
      × (detect_requests load_facts source (dir ++ b'/' ∷ rest) ≡ [])
      × (detect_swallow load_facts source (dir ++ b'/' ∷ rest) ≡ [])
      × (detect_ctor load_facts source (dir ++ b'/' ∷ rest) ≡ [])
      × (detect_json load_facts source (dir ++ b'/' ∷ rest) ≡ [])
unfolding detect_httpx detect_requests detect_swallow detect_ctor detect_json
detect_below load_facts dir rest source lang h =
    let below = is_skipped_below dir rest lang python false h in
    (
      detect_in_skipped _ _ _ below,
      detect_in_skipped _ _ _ below,
      detect_in_skipped _ _ _ below,
      detect_in_skipped _ _ _ below,
      detect_in_skipped _ _ _ below,
    )
