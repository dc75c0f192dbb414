-- ===== src/Pyast/Scopes/Visits.antt =====
-- checkers/pyast_client.py: the visitor finds what the scopes of the tree say.
use deslop.Prelude.{refl, Bool, true, false, Text}
use deslop.Pyast.{visit_import, visit_import_from}
use deslop.Pyast.Tree.{
  Node, name, attribute, call, subscript, constant, joined_str, formatted_value, add, starred,
  tuple, expr, pass, import_stmt, import_from, function_def, class_def, other, try_stmt, Nodes, nil,
  cons, Keywords, no_more, keyword, Handlers, done, bare, handler,
}
use deslop.Pyast.Calls.{call_record}
use deslop.Pyast.Visitor.{
  try_region, except_region, else_region, finally_region, function_record, visit, visit_all,
  visit_keywords, visit_handlers,
}
use deslop.Pyast.Scopes.{scoped, scoped_all, scoped_keywords, scoped_handlers}
use deslop.Pyast.Scopes.Parts.{
  Finds, nothing-Finds, both-Finds, emit_call-Finds, imported-Finds, region-Finds, class-Finds,
  noted-Finds, attribute_read-Finds, function-Finds,
}

module _ (unparse : Node → Text) where
  mutual
    unfolding visit scoped

    pub visit-Finds :
        (is_func : Bool) (n : Node) → Finds (visit unparse is_func n) (scoped unparse is_func n)
    visit-Finds is_func (name id) = nothing-Finds
    visit-Finds is_func (attribute line value attr load) =
        both-Finds (attribute_read-Finds unparse is_func line value attr load)
          (visit-Finds false value)
    visit-Finds is_func (call line func args keywords) =
        both-Finds (emit_call-Finds (call_record unparse line func args keywords)) (
          both-Finds (visit-Finds true func)
            (both-Finds (visit_all-Finds args) (visit_keywords-Finds keywords)))
    visit-Finds is_func (subscript value slice) =
        both-Finds (visit-Finds false value) (visit-Finds false slice)
    visit-Finds is_func (constant c) = nothing-Finds
    visit-Finds is_func (joined_str values) = visit_all-Finds values
    visit-Finds is_func (formatted_value value spec) =
        both-Finds (visit-Finds false value) (visit_all-Finds spec)
    visit-Finds is_func (add left right) =
        both-Finds (visit-Finds false left) (visit-Finds false right)
    visit-Finds is_func (starred value) = visit-Finds false value
    visit-Finds is_func (tuple elts) = visit_all-Finds elts
    visit-Finds is_func (expr value) = visit-Finds false value
    visit-Finds is_func pass = nothing-Finds
    visit-Finds is_func (import_stmt names) = imported-Finds (visit_import names)
    visit-Finds is_func (import_from source names) = imported-Finds (visit_import_from source names)
    visit-Finds is_func (function_def is_async id start end decorators annotations returns body) =
        function-Finds (function_record unparse is_async id start end decorators) refl (
          both-Finds (visit_all-Finds decorators) (
            both-Finds (visit_all-Finds annotations)
              (both-Finds (visit_all-Finds returns) (visit_all-Finds body))))
    visit-Finds is_func (class_def children) = class-Finds (visit_all-Finds children)
    visit-Finds is_func (other children) = visit_all-Finds children
    visit-Finds is_func (try_stmt body handlers orelse finalbody) =
        both-Finds (noted-Finds unparse handlers) (
          both-Finds (region-Finds try_region (visit_all-Finds body)) (
            both-Finds (visit_handlers-Finds handlers) (
              both-Finds (region-Finds else_region (visit_all-Finds orelse))
                (region-Finds finally_region (visit_all-Finds finalbody)))))

    pub visit_all-Finds : (ns : Nodes) → Finds (visit_all unparse ns) (scoped_all unparse ns)
    visit_all-Finds nil = nothing-Finds
    visit_all-Finds (cons n ns) = both-Finds (visit-Finds false n) (visit_all-Finds ns)

    pub visit_keywords-Finds :
        (ks : Keywords) → Finds (visit_keywords unparse ks) (scoped_keywords unparse ks)
    visit_keywords-Finds no_more = nothing-Finds
    visit_keywords-Finds (keyword arg value more) =
        both-Finds (visit-Finds false value) (visit_keywords-Finds more)

    pub visit_handlers-Finds :
        (hs : Handlers) → Finds (visit_handlers unparse hs) (scoped_handlers unparse hs)
    visit_handlers-Finds done = nothing-Finds
    visit_handlers-Finds (bare line body more) =
        both-Finds (region-Finds except_region (visit_all-Finds body)) (visit_handlers-Finds more)
    visit_handlers-Finds (handler line type body more) =
        both-Finds
          (region-Finds except_region (both-Finds (visit-Finds false type) (visit_all-Finds body)))
          (visit_handlers-Finds more)
