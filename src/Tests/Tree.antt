-- ===== src/Tests/Tree.antt =====
-- The facts of a Python tree.
use deslop.Prelude.{
  count_if, Bool, true, false, [], ◌∷◌, Text, codes, Option, map, All, ◌+◌, list_beq, assign,
  lookup, none, some, ◌≡◌, refl, arith,
}
use deslop.Pyast.{resolve, visit_import}
use deslop.Pyast.Facts.{Facts, Call, Function}
use deslop.Pyast.Tree.{
  add, string, number, joined_str, formatted_value, constant, Node, name, attribute, call, expr,
  pass, import_stmt, function_def, other, try_stmt, nil, cons, no_more, done, handler,
}
use deslop.Pyast.Calls.{call_record, is_static_str_expr, first_arg_kind}
use deslop.Pyast.Static.{reads, is_static_str_expr-reads}
use deslop.Pyast.Visitor.{
  emit_call, update_at, State, visit, initial, enter_function, load_facts, function_record,
}
use deslop.Pyast.Scopes.{scoped}
use deslop.Pyast.Scopes.Places.{with_found}
use deslop.Pyast.Scopes.Owners.{IsOwned, count_in}
use deslop.Pyast.Scopes.Laws.{visit-Scoped, load_facts-owners, module_found}

abbrev unparse : Node → Text
unparse (name id) = id
unparse n = codes "..."

-- `import requests as r`, a function that calls `r.get(url)` in a `try`, and a call of it behind it.
abbrev tree : Node
tree = other (
    cons (import_stmt (record { name = codes "requests"; asname = some (codes "r") } ∷ [])) (
      cons
        (function_def false (codes "index") 2 (some 6) nil nil nil (
          cons
            (try_stmt
              (cons
                (expr (
                  call 4 (attribute 4 (name (codes "r")) (codes "get") true)
                    (cons (name (codes "url")) nil) no_more))
                nil)
              (handler 5 (name (codes "ValueError")) (cons pass nil) done) nil nil)
            nil))
        (cons (expr (call 8 (name (codes "index")) nil no_more)) nil)))

abbrev parse : Text → Text → Option Node
parse source filename = some tree

abbrev brief : Call → Text × Bool
brief c = (c.name, c.in_try)

abbrev end : State
end = visit unparse false tree initial

tree_calls : map brief end.calls ≡ (codes "requests.get", true) ∷ (codes "index", false) ∷ []
unfolding visit resolve visit_import call_record list_beq assign lookup emit_call
tree_calls = refl

tree_functions :
    map (λ fn. map brief fn.calls) end.functions ≡ ((codes "requests.get", true) ∷ []) ∷ []
unfolding visit resolve visit_import call_record list_beq assign lookup emit_call update_at
tree_functions = refl

abbrev head : Function
head = function_record unparse false (codes "index") 2 (some 6) nil

-- The call in the function, from a state in that function.
abbrev inside : State
inside = enter_function head initial

visit-Scoped_example :
    visit unparse false tree inside
    ≡ with_found inside (scoped unparse false tree (some (codes "index")) false [])
visit-Scoped_example = visit-Scoped unparse false tree inside (omega arith)

load_facts-owners_example :
    (facts : Facts) × (load_facts unparse parse [] [] ≡ some facts)
    × ((p : Call → Bool)
        → count_if p facts.calls
          ≡ count_if p (module_found unparse tree).own + count_in p facts.functions)
    × All (IsOwned none facts.functions) facts.except_handlers
load_facts-owners_example = load_facts-owners unparse parse [] [] tree refl

-- `f"{1:{width}}"`, whose width is a name.
width_is_free :
    is_static_str_expr (
      joined_str (
        cons
          (formatted_value
            (constant number)
            (cons (joined_str (cons (formatted_value (name (codes "width")) nil) nil)) nil))
          nil))
    ≡ true
unfolding is_static_str_expr
width_is_free = refl

is_static_str_expr-reads_example :
    (reads (add (constant string) (joined_str nil)) ≡ false)
    × (first_arg_kind (add (constant string) (joined_str nil)) ≡ codes "string_literal")
unfolding is_static_str_expr
is_static_str_expr-reads_example =
    is_static_str_expr-reads (add (constant string) (joined_str nil)) refl
