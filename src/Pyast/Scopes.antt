-- ===== src/Pyast/Scopes.antt =====
-- checkers/pyast_client.py: what `_FactsVisitor` collects, read off the places where the nodes stand. A
-- node is at a place: in a function or in none, in the body of a `try` or not, and below imports.
pub mod Places
pub mod Parts
pub mod Visits
pub mod Owners
pub mod Laws
use deslop.Prelude.{ℕ, Bool, true, false, List, [], ◌∷◌, ◌++◌, Text, Option, none, some, Dict}
use deslop.Pyast.{visit_import, visit_import_from}
use deslop.Pyast.Facts.{Call, ExceptHandler, Function}
use deslop.Pyast.Tree.{
  Node, name, attribute, call, subscript, constant, joined_str, formatted_value, add, starred,
  tuple, expr, pass, import_stmt, import_from, function_def, class_def, other, try_stmt, Nodes, nil,
  cons, Keywords, no_more, keyword, Handlers, done, bare, handler,
}
use deslop.Pyast.Calls.{call_record}
use deslop.Pyast.Visitor.{json_record, json_read, function_record, handler_records}

-- What a part of the tree holds: the calls of the function it is in, all the calls, the handlers, the
-- functions that start in it, and the imports that hold behind it.
pub record Found : Type 0 where
  pub own : List Call
  pub calls : List Call
  pub handlers : List ExceptHandler
  pub functions : List Function
  pub aliases : Dict Text Text

-- The name of the function, whether it is in the body of a `try`, and the imports.
abbrev pub Scoped : Type 0
Scoped = Option Text → Bool → Dict Text Text → Found

abbrev pub onto_found : Found → Found → Found
onto_found r q = record {
  own = r.own ++ q.own;
  calls = r.calls ++ q.calls;
  handlers = r.handlers ++ q.handlers;
  functions = r.functions ++ q.functions;
  aliases = q.aliases;
}

abbrev pub nothing : Scoped
nothing fn in_try aliases = record {
  own = [];
  calls = [];
  handlers = [];
  functions = [];
  aliases = aliases;
}

-- The first part, and the second behind it.
abbrev pub both : Scoped → Scoped → Scoped
both first second fn in_try aliases =
    let r = first fn in_try aliases in onto_found r (second fn in_try r.aliases)

abbrev pub called : (Dict Text Text → Call) → Scoped
called rec fn in_try aliases =
    let placed = record (rec aliases) { in_try = in_try } in
    record (nothing fn in_try aliases) { own = placed ∷ []; calls = placed ∷ [] }

abbrev pub imported : (Dict Text Text → Dict Text Text) → Scoped
imported f fn in_try aliases = nothing fn in_try (f aliases)

abbrev pub noted : (Option Text → List ExceptHandler) → Scoped
noted handlers fn in_try aliases = record (nothing fn in_try aliases) { handlers = handlers fn }

abbrev pub in_region : Bool → Scoped → Scoped
in_region in_body part fn in_try aliases = part fn in_body aliases

abbrev pub in_class : Scoped → Scoped
in_class part fn in_try aliases = record (part fn in_try aliases) { aliases = aliases }

-- Its calls are those of the function that starts here, and none of the one around it.
abbrev pub in_function : Function → Scoped → Scoped
in_function head part fn in_try aliases =
    let r = part (some head.name) in_try aliases in
    record r {
      own = [];
      functions = record head { calls = r.own } ∷ r.functions;
      aliases = aliases;
    }

abbrev pub read : Option Text → ℕ → Scoped
read none line = nothing
read (some full) line = called (λ aliases. json_record full line)

module _ (unparse : Node → Text) where
  abbrev pub attribute_read : Bool → ℕ → Node → Text → Bool → Scoped
  attribute_read is_func line value attr load fn in_try aliases =
      read (json_read unparse is_func (attribute line value attr load) attr load aliases) line fn
        in_try aliases

  unfoldable mutual
    pub scoped : Bool → Node → Scoped
    scoped is_func (name id) = nothing
    scoped is_func (attribute line value attr load) =
        both (attribute_read is_func line value attr load) (scoped false value)
    scoped is_func (call line func args keywords) =
        both (called (call_record unparse line func args keywords))
          (both (scoped true func) (both (scoped_all args) (scoped_keywords keywords)))
    scoped is_func (subscript value slice) = both (scoped false value) (scoped false slice)
    scoped is_func (constant c) = nothing
    scoped is_func (joined_str values) = scoped_all values
    scoped is_func (formatted_value value spec) = both (scoped false value) (scoped_all spec)
    scoped is_func (add left right) = both (scoped false left) (scoped false right)
    scoped is_func (starred value) = scoped false value
    scoped is_func (tuple elts) = scoped_all elts
    scoped is_func (expr value) = scoped false value
    scoped is_func pass = nothing
    scoped is_func (import_stmt names) = imported (visit_import names)
    scoped is_func (import_from source names) = imported (visit_import_from source names)
    scoped is_func (function_def is_async id start end decorators annotations returns body) =
        in_function (function_record unparse is_async id start end decorators) (
          both (scoped_all decorators)
            (both (scoped_all annotations) (both (scoped_all returns) (scoped_all body))))
    scoped is_func (class_def children) = in_class (scoped_all children)
    scoped is_func (other children) = scoped_all children
    scoped is_func (try_stmt body handlers orelse finalbody) =
        both (noted (λ fn. handler_records unparse fn handlers)) (
          both (in_region true (scoped_all body)) (
            both (scoped_handlers handlers) (
              both (in_region false (scoped_all orelse)) (in_region false (scoped_all finalbody)))))

    pub scoped_all : Nodes → Scoped
    scoped_all nil = nothing
    scoped_all (cons n ns) = both (scoped false n) (scoped_all ns)

    pub scoped_keywords : Keywords → Scoped
    scoped_keywords no_more = nothing
    scoped_keywords (keyword arg value more) = both (scoped false value) (scoped_keywords more)

    pub scoped_handlers : Handlers → Scoped
    scoped_handlers done = nothing
    scoped_handlers (bare line body more) =
        both (in_region false (scoped_all body)) (scoped_handlers more)
    scoped_handlers (handler line type body more) =
        both (in_region false (both (scoped false type) (scoped_all body))) (scoped_handlers more)
