-- ===== src/Pyast/Scopes/Laws.antt =====
-- checkers/pyast_client.py: what holds of the facts that the visitor collects.
use deslop.Prelude.{count_if, ◌+◌, ◌≡◌, ap, Bool, true, false, [], All, Option, none, some, Text}
use deslop.Pyast.{visit_import, visit_import_from}
use deslop.Pyast.Facts.{Call, Facts}
use deslop.Pyast.Tree.{
  Node, name, attribute, call, subscript, constant, joined_str, formatted_value, add, starred,
  tuple, expr, pass, import_stmt, import_from, function_def, class_def, other, try_stmt, Nodes, nil,
  cons, Keywords, no_more, keyword, Handlers, done, bare, handler,
}
use deslop.Pyast.Calls.{call_record}
use deslop.Pyast.Visitor.{
  State, top_is_try, name_on_top, function_record, visit, initial, result, load_facts,
}
use deslop.Pyast.Scopes.{Found, scoped, scoped_all, scoped_keywords, scoped_handlers}
use deslop.Pyast.Scopes.Places.{IsPlaced, with_found}
use deslop.Pyast.Scopes.Visits.{visit-Finds}
use deslop.Pyast.Scopes.Owners.{
  Belongs, count_in, IsOwned, nothing-Belongs, both-Belongs, function-Belongs, called-Belongs,
  imported-Belongs, noted-Belongs, region-Belongs, class-Belongs, attribute_read-Belongs,
}

module _ (unparse : Node → Text) where
  mutual
    unfolding scoped

    scoped-Belongs : (is_func : Bool) (n : Node) → Belongs (scoped unparse is_func n)
    scoped-Belongs is_func (name id) = nothing-Belongs
    scoped-Belongs is_func (attribute line value attr load) =
        both-Belongs (attribute_read-Belongs unparse is_func line value attr load)
          (scoped-Belongs false value)
    scoped-Belongs is_func (call line func args keywords) =
        both-Belongs (called-Belongs (call_record unparse line func args keywords)) (
          both-Belongs (scoped-Belongs true func)
            (both-Belongs (scoped_all-Belongs args) (scoped_keywords-Belongs keywords)))
    scoped-Belongs is_func (subscript value slice) =
        both-Belongs (scoped-Belongs false value) (scoped-Belongs false slice)
    scoped-Belongs is_func (constant c) = nothing-Belongs
    scoped-Belongs is_func (joined_str values) = scoped_all-Belongs values
    scoped-Belongs is_func (formatted_value value spec) =
        both-Belongs (scoped-Belongs false value) (scoped_all-Belongs spec)
    scoped-Belongs is_func (add left right) =
        both-Belongs (scoped-Belongs false left) (scoped-Belongs false right)
    scoped-Belongs is_func (starred value) = scoped-Belongs false value
    scoped-Belongs is_func (tuple elts) = scoped_all-Belongs elts
    scoped-Belongs is_func (expr value) = scoped-Belongs false value
    scoped-Belongs is_func pass = nothing-Belongs
    scoped-Belongs is_func (import_stmt names) = imported-Belongs (visit_import names)
    scoped-Belongs is_func (import_from source names) =
        imported-Belongs (visit_import_from source names)
    scoped-Belongs is_func
          (function_def is_async id start end decorators annotations returns body) =
        function-Belongs (function_record unparse is_async id start end decorators) (
          both-Belongs (scoped_all-Belongs decorators) (
            both-Belongs (scoped_all-Belongs annotations)
              (both-Belongs (scoped_all-Belongs returns) (scoped_all-Belongs body))))
    scoped-Belongs is_func (class_def children) = class-Belongs (scoped_all-Belongs children)
    scoped-Belongs is_func (other children) = scoped_all-Belongs children
    scoped-Belongs is_func (try_stmt body handlers orelse finalbody) =
        both-Belongs (noted-Belongs unparse handlers) (
          both-Belongs (region-Belongs true (scoped_all-Belongs body)) (
            both-Belongs (scoped_handlers-Belongs handlers) (
              both-Belongs (region-Belongs false (scoped_all-Belongs orelse))
                (region-Belongs false (scoped_all-Belongs finalbody)))))

    scoped_all-Belongs : (ns : Nodes) → Belongs (scoped_all unparse ns)
    scoped_all-Belongs nil = nothing-Belongs
    scoped_all-Belongs (cons n ns) = both-Belongs (scoped-Belongs false n) (scoped_all-Belongs ns)

    scoped_keywords-Belongs : (ks : Keywords) → Belongs (scoped_keywords unparse ks)
    scoped_keywords-Belongs no_more = nothing-Belongs
    scoped_keywords-Belongs (keyword arg value more) =
        both-Belongs (scoped-Belongs false value) (scoped_keywords-Belongs more)

    scoped_handlers-Belongs : (hs : Handlers) → Belongs (scoped_handlers unparse hs)
    scoped_handlers-Belongs done = nothing-Belongs
    scoped_handlers-Belongs (bare line body more) =
        both-Belongs (region-Belongs false (scoped_all-Belongs body)) (scoped_handlers-Belongs more)
    scoped_handlers-Belongs (handler line type body more) =
        both-Belongs
          (region-Belongs false
            (both-Belongs (scoped-Belongs false type) (scoped_all-Belongs body)))
          (scoped_handlers-Belongs more)

  -- From any state whose top of the function stack is a record of its list, the visitor ends with the
  -- same stacks of functions, of regions and of outer aliases, and it adds what the scopes say of the
  -- node at the place of the state: the node's own calls to the record of the function on the top,
  -- every call, handler and function in order to the lists, and the imports that hold behind the node.
  pub visit-Scoped :
      (is_func : Bool) (n : Node) (s : State)
      → IsPlaced s
      → visit unparse is_func n s
        ≡ with_found s
            (scoped unparse is_func n (name_on_top s.fn_stack) (top_is_try s.region) s.aliases)
  visit-Scoped is_func n s placed = (visit-Finds unparse is_func n).finds s placed

  -- What the scopes say of a whole file.
  abbrev pub module_found : Node → Found
  module_found tree = scoped unparse false tree none false []

  abbrev facts_of : Found → Facts
  facts_of r = record { calls = r.calls; except_handlers = r.handlers; functions = r.functions }

  -- Where the source parses, facts are returned: by any test on calls, as many calls are listed for the
  -- file as for the code outside of functions and for the functions together, and a handler without
  -- a function aside, each handler names a function that is listed.
  pub load_facts-owners :
      (parse : Text → Text → Option Node) (source filename : Text) (tree : Node)
      → parse source filename ≡ some tree
      → (facts : Facts) × (load_facts unparse parse source filename ≡ some facts)
        × ((p : Call → Bool)
            → count_if p facts.calls
              ≡ count_if p (module_found tree).own + count_in p facts.functions)
        × All (IsOwned none facts.functions) facts.except_handlers
  unfolding load_facts
  load_facts-owners parse source filename tree e = (
    facts_of (module_found tree),
    rw (e, load_facts) (ap (λ s. some (result s)) (visit-Scoped false tree initial tt)),
    λ p. (scoped-Belongs false tree).split p none false [],
    (scoped-Belongs false tree).owned none false [],
  )
