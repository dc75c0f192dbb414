-- ===== src/Detectors/Python/Blocking.antt =====
-- checkers/no_sync_blocking_io_in_async_def_route.py, which reports a call once for its line and name.
pub mod Names
pub mod Laws
use deslop.Prelude.{
  ℕ, zero, suc, Bool, true, false, ◌&&◌, ◌||◌, not, List, [], ◌∷◌, ◌++◌, map, Text, codes, Option,
  none, some, mem, any, starts_with, ends_with, after_last, if◌then◌else◌, ◌==◌, nat_eq, list_eq,
  list_beq, pair_eq,
}
use deslop.Checkers.Common.{Finding, is_skipped}
use deslop.Pyast.Facts.{Call, Function, Facts}
use deslop.Detectors.{detect_in}
use deslop.Detectors.Python.{python, is_route}

abbrev pub requests_methods : List Text
requests_methods =
    codes "get"
    ∷ codes "post"
    ∷ codes "put"
    ∷ codes "patch"
    ∷ codes "delete"
    ∷ codes "request"
    ∷ codes "head"
    ∷ []

abbrev pub urllib_io : List Text
urllib_io = codes "urllib.request.urlopen" ∷ codes "urllib.request.urlretrieve" ∷ []

abbrev pub safe_prefixes : List Text
safe_prefixes = codes "httpx." ∷ codes "asyncio." ∷ codes "aiofiles." ∷ codes "aiohttp." ∷ []

unfoldable pub has_execute : List Call → Bool
has_execute calls =
    any (λ c. c.name == codes "execute" || ends_with c.name (codes ".execute")) calls

abbrev blocking : Text → Option Text
blocking name = some (codes "sync blocking call " ++ (name ++ codes " in async route handler"))

-- The name is that of the module, or of a part of it.
abbrev pub below : Text → Text → Bool
below root name = name == root || starts_with name (root ++ b'.' ∷ [])

-- What follows the two prefix tests of `_blocking_message`.
unfoldable pub blocking_call : Text → Bool → Option Text
blocking_call name executes =
    if name == codes "time.sleep"
    then some (codes "sync blocking call time.sleep in async route handler")
    else if starts_with name (codes "requests.")
    then (if mem (after_last b'.' name) requests_methods then blocking name else none)
    else if mem name urllib_io
    then blocking name
    else if below (codes "http.client") name
    then blocking name
    else if below (codes "boto3") name
    then blocking name
    else if (name == codes "pandas.read_sql" || ends_with name (codes ".read_sql"))
        && (name == codes "pandas.read_sql" || starts_with name (codes "pandas."))
    then blocking name
    else if below (codes "psycopg2") name
    then blocking name
    else if (name == codes "sqlite3.connect" || ends_with name (codes "sqlite3.connect"))
        && executes
    then some (codes "sqlite3.connect with execute in async route handler")
    else none

unfoldable pub blocking_message : Text → List Call → Option Text
unfolding has_execute blocking_call
blocking_message name calls =
    let rest = blocking_call name (has_execute calls) in
    if name == []
    then none
    else if any (starts_with name) safe_prefixes
        || mem name (codes "asyncio.sleep" ∷ codes "sleep" ∷ [])
    then if name == codes "asyncio.sleep" || starts_with name (codes "asyncio.")
      then none
      else if starts_with name (codes "httpx.") || starts_with name (codes "aiofiles.")
      then none
      else if starts_with name (codes "aiohttp.")
      then none
      else rest
    else rest

-- `int(call.get("line") or fn.get("line_start") or 1)`
abbrev pub or_one : ℕ → ℕ
or_one zero = 1
or_one (suc n) = suc n

abbrev pub line_in : Function → Option ℕ → ℕ
line_in fn none = or_one fn.line_start
line_in fn (some zero) = or_one fn.line_start
line_in fn (some (suc n)) = suc n

-- A call, with its line and the message if it is reported.
pub record Named : Type 0 where
  pub line : ℕ
  pub name : Text
  pub message : Option Text

unfoldable pub named_item : Function → Call → Named
unfolding blocking_message
named_item fn call = record {
  line = line_in fn call.line;
  name = call.name;
  message = blocking_message call.name fn.calls;
}

unfoldable pub report_named : Text → List (ℕ × Text) → List Named → List Finding
report_named rule_id seen [] = []
report_named rule_id seen (item ∷ items) = elim item.message [
  | none ↦ report_named rule_id seen items
  | some message ↦
      let again = report_named rule_id seen items in
      let rest = report_named rule_id ((item.line, item.name) ∷ seen) items in
      if mem (item.line, item.name) seen
      then again
      else record { line = item.line; message = message; rule_id = rule_id } ∷ rest
]

unfoldable pub named_items : List Function → List Named
unfolding named_item
named_items [] = []
named_items (fn ∷ fns) =
    (if fn.is_async && is_route fn then map (named_item fn) fn.calls else []) ++ named_items fns

abbrev pub blocking_rule : Text
blocking_rule = codes "python.asyncio.no-sync-blocking-io-in-async-def-route"

unfoldable pub detect_blocking : (Text → Text → Option Facts) → Text → Text → List Finding
unfolding report_named named_items
detect_blocking load_facts source filename =
    detect_in (is_skipped filename python false) (load_facts source filename)
      (λ facts. report_named blocking_rule [] (named_items facts.functions))
