-- ===== src/Detectors/Handlers.antt =====
-- The Go facts that the detectors read, which the program goast-facts prints, and
-- checkers/no_handler_rooted_background_context.py, no_handler_direct_outbound_http.py,
-- no_handler_detached_goroutine.py and no_handler_direct_sql_execution.py: what an HTTP handler must not
-- do. Two regular expressions are parameters.
pub mod Laws
use deslop.Prelude.{
  ◌+◌, ℕ, Bool, true, false, ◌&&◌, ◌||◌, not, List, [], ◌∷◌, ◌++◌, map, Text, codes, Option, none,
  some, Dict, lookup, assign, mem, any, keep, contains, split, after_last, if◌then◌else◌, ◌==◌,
  nat_eq, list_eq, list_beq,
}
use deslop.Texts.Strip.{strip}
use deslop.Checkers.Common.{Finding}
use deslop.Goast.{is_skipped}
use deslop.Detectors.{Item, line_or_one, report_once, each, detect_in}

pub record Call : Type 0 where
  pub name : Text
  pub line : Option ℕ
  pub args_summary : List Text

pub record GoStmt : Type 0 where
  pub has_context : Bool
  pub call_summary : Text
  pub line : Option ℕ

pub record Assign : Type 0 where
  pub lhs : Text
  pub rhs_summary : Text

pub record Function : Type 0 where
  pub name : Text
  pub params : List Text
  pub calls : List Call
  pub go_stmts : List GoStmt
  pub assigns : List Assign

pub record Facts : Type 0 where
  pub functions : List Function

-- `" ".join(parts)`
abbrev pub onto_joined : Text → List Text → Text → Text
onto_joined p [] rest = p
onto_joined p (_ ∷ _) rest = p ++ b' ' ∷ rest

unfoldable pub joined : List Text → Text
joined [] = []
joined (p ∷ ps) = onto_joined p ps (joined ps)

unfoldable pub is_handler : Function → Bool
is_handler fn =
    if fn.name == codes "ServeHTTP"
    then true
    else contains (joined fn.params) (codes "ResponseWriter")
      && (contains (joined fn.params) (codes "*http.Request")
          || contains (joined fn.params) (codes "*Request"))

-- `(?i)`: the letters that a regular expression takes for the same.
abbrev fold_case : ℕ → ℕ
fold_case c =
    if mem c (codes "ABCDEFGHIJKLMNOPQRSTUVWXYZ")
    then c + 32
    else if c == 304 || c == 305
    then b'i'
    else if c == 383
    then b's'
    else if c == 8490
    then b'k'
    else c

abbrev pub lifecycle_words : List Text
lifecycle_words =
    codes "listen"
    ∷ codes "shutdown"
    ∷ codes "exit"
    ∷ codes "stop"
    ∷ codes "notifycontext"
    ∷ codes "withtimeout"
    ∷ codes "withtimeoutcause"
    ∷ codes "withcancel"
    ∷ codes "withdeadline"
    ∷ codes "notify"
    ∷ []

-- `_LIFECYCLE.search(text)`
unfoldable pub lifecycle : Text → Bool
lifecycle text = any (λ w. contains (map fold_case text) w) lifecycle_words

abbrev pub background : List Text
background = codes "context.Background" ∷ codes "context.TODO" ∷ []

abbrev pub line_or_zero : Option ℕ → ℕ
line_or_zero none = 0
line_or_zero (some n) = n

-- A call that `_lifecycle_lines` takes the line of.
unfoldable pub roots_lifecycle : Call → Bool
roots_lifecycle call =
    lifecycle call.name && any (λ b. contains (joined call.args_summary) b) background

unfoldable pub lifecycle_lines : Function → List ℕ
lifecycle_lines fn = map (λ c. line_or_zero c.line) (keep roots_lifecycle fn.calls)

unfoldable pub background_item : List ℕ → Call → Item
background_item skip_lines call = record {
  line = line_or_one call.line;
  message =
      if not (mem call.name background)
      then none
      else if mem (line_or_one call.line) skip_lines
      then none
      else some (call.name ++ codes "() in HTTP handler; use r.Context() so cancel propagates");
}

abbrev pub bare_http : List Text
bare_http = codes "http.Get" ∷ codes "http.Post" ∷ codes "http.Head" ∷ codes "http.PostForm" ∷ []

unfoldable pub http_item : Call → Item
http_item call = record {
  line = line_or_one call.line;
  message =
      if not (mem call.name bare_http)
      then none
      else some (
          call.name
          ++ codes
              " in HTTP handler has no request context or deadline; use http.NewRequestWithContext");
}

-- `_callee_last`
abbrev pub head_of : List Text → Text
head_of [] = []
head_of (p ∷ ps) = p

unfoldable pub callee_last : Text → Text
callee_last name = strip (after_last b'.' (head_of (split b'(' name)))

-- `lhs_map`
unfoldable pub lhs_map_onto : Dict Text Text → List Assign → Dict Text Text
lhs_map_onto m [] = m
lhs_map_onto m (asg ∷ assigns) = lhs_map_onto (assign asg.lhs asg.rhs_summary m) assigns

abbrev pub found_arg : Option Text → List Text → List Text
found_arg none out = out
found_arg (some rhs) out = rhs ∷ out

unfoldable pub assigned_args : Dict Text Text → List Text → List Text
assigned_args m [] = []
assigned_args m (a ∷ args) = found_arg (lookup (strip a) m) (assigned_args m args)

unfoldable pub expanded_args : Function → List Text → List Text
expanded_args fn args = args ++ assigned_args (lhs_map_onto [] fn.assigns) args

abbrev pub begins : List Text
begins = codes "Begin" ∷ codes "BeginTx" ∷ []

abbrev pub sql_callees : List Text
sql_callees =
    codes "Query"
    ∷ codes "QueryContext"
    ∷ codes "QueryRow"
    ∷ codes "QueryRowContext"
    ∷ codes "Exec"
    ∷ codes "ExecContext"
    ∷ begins

abbrev pub or_text : Text → Text → Text
or_text [] d = d
or_text (c ∷ s) d = c ∷ s

-- `_SQL_VERB.search` is `sql_verb`.
unfoldable pub sql_item : (Text → Bool) → Function → Call → Item
sql_item sql_verb fn call = record {
  line = line_or_one call.line;
  message =
      if not (mem (callee_last call.name) sql_callees)
      then none
      else if not (mem (callee_last call.name) begins)
          && not (any sql_verb (expanded_args fn call.args_summary))
      then none
      else some (
          or_text call.name (callee_last call.name)
          ++ codes
              " in HTTP handler runs SQL on the request path; move Query/Exec/Begin to a store");
}

-- `_CTX_IDENT.search` is `ctx_ident`.
unfoldable pub receives_context : (Text → Bool) → GoStmt → Bool
receives_context ctx_ident gs =
    if gs.has_context
    then true
    else if contains gs.call_summary (codes "Context()")
        || contains gs.call_summary (codes ".Done()")
    then true
    else ctx_ident gs.call_summary

unfoldable pub goroutine_item : (Text → Bool) → GoStmt → Item
goroutine_item ctx_ident gs = record {
  line = line_or_one gs.line;
  message =
      if receives_context ctx_ident gs
      then none
      else if lifecycle gs.call_summary
      then none
      else some
          (codes "go statement in HTTP handler does not receive request context; pass r.Context()");
}

abbrev pub background_rule : Text
background_rule = codes "go.architecture.no-handler-rooted-background-context"

abbrev pub http_rule : Text
http_rule = codes "go.architecture.no-handler-direct-outbound-http"

abbrev pub goroutine_rule : Text
goroutine_rule = codes "go.architecture.no-handler-detached-goroutine"

abbrev pub sql_rule : Text
sql_rule = codes "go.architecture.no-handler-direct-sql-execution"

-- The items of a function that is a handler.
abbrev pub handler_items : (Function → List Item) → Function → List Item
handler_items items fn = if is_handler fn then items fn else []

module _ (load_facts : Text → Text → Option Facts) where
  abbrev pub detect_handlers : Text → (Function → List Item) → Text → Text → List Finding
  detect_handlers rule_id items source filename =
      detect_in (is_skipped filename false) (load_facts source filename)
        (λ facts. report_once rule_id [] (each (handler_items items) facts.functions))

  unfoldable pub detect_background : Text → Text → List Finding
  detect_background =
      detect_handlers background_rule (λ fn. map (background_item (lifecycle_lines fn)) fn.calls)

  unfoldable pub detect_http : Text → Text → List Finding
  detect_http = detect_handlers http_rule (λ fn. map http_item fn.calls)

  unfoldable pub detect_goroutine : (Text → Bool) → Text → Text → List Finding
  detect_goroutine ctx_ident =
      detect_handlers goroutine_rule (λ fn. map (goroutine_item ctx_ident) fn.go_stmts)

  unfoldable pub detect_sql : (Text → Bool) → Text → Text → List Finding
  detect_sql sql_verb = detect_handlers sql_rule (λ fn. map (sql_item sql_verb fn) fn.calls)
