-- ===== src/Pyast/Visitor.antt =====
-- checkers/pyast_client.py: `_FactsVisitor`, which walks a tree with a stack of import aliases, one of
-- functions and one of the regions of `try`.
use deslop.Prelude.{
  ℕ, zero, suc, Bool, true, false, ◌&&◌, not, List, [], ◌∷◌, ◌++◌, Text, codes, Option, none, some,
  Dict, length, mem, after_last, if◌then◌else◌, ◌==◌, nat_eq, list_eq,
}
use deslop.Pyast.{resolve, visit_import, visit_import_from}
use deslop.Pyast.Facts.{Call, ExceptHandler, Function, Facts}
use deslop.Pyast.Tree.{
  Node, name, attribute, call, subscript, constant, joined_str, formatted_value, add, starred,
  tuple, expr, pass, import_stmt, import_from, function_def, class_def, other, try_stmt, Nodes, nil,
  cons, Keywords, no_more, keyword, Handlers, done, bare, handler, dotted, map_nodes,
}
use deslop.Pyast.Calls.{call_record, line_of, body_kind, handler_type}

pub data Region : Type 0 where
  try_region : Region
  except_region : Region
  else_region : Region
  finally_region : Region

-- A function on the stack: which record of `functions` it is, and its name.
pub record FunctionRef : Type 0 where
  pub index : ℕ
  pub name : Text

-- The lists, and the stacks from the top on. The stack of aliases is never empty; its top stands apart.
-- The stack of parents has no field: `visit` is told what `visit_Attribute` asks of it.
pub record State : Type 0 where
  pub functions : List Function
  pub except_handlers : List ExceptHandler
  pub calls : List Call
  pub aliases : Dict Text Text
  pub outer_aliases : List (Dict Text Text)
  pub fn_stack : List FunctionRef
  pub region : List Region

abbrev pub top_is_try : List Region → Bool
top_is_try (try_region ∷ region) = true
top_is_try _ = false

abbrev pub name_on_top : List FunctionRef → Option Text
name_on_top [] = none
name_on_top (fn ∷ fns) = some fn.name

-- `_fn_stack[-1]["calls"].append(…)`, which changes the record in `functions`
unfoldable pub update_at {ℓ} : {A : Type ℓ} → ℕ → (A → A) → List A → List A
update_at i f [] = []
update_at zero f (x ∷ xs) = f x ∷ xs
update_at (suc i) f (x ∷ xs) = x ∷ update_at i f xs

abbrev pub with_calls : List Call → Function → Function
with_calls more fn = record fn { calls = fn.calls ++ more }

abbrev pub onto_top : List FunctionRef → List Call → List Function → List Function
onto_top [] more functions = functions
onto_top (fn ∷ fns) more functions = update_at fn.index (with_calls more) functions

unfoldable pub emit_call : Call → State → State
unfolding update_at
emit_call rec s =
    let placed = record rec { in_try = top_is_try s.region } in
    record s {
      calls = s.calls ++ placed ∷ [];
      functions = onto_top s.fn_stack (placed ∷ []) s.functions;
    }

abbrev pub push_scope : State → State
push_scope s = record s { outer_aliases = s.aliases ∷ s.outer_aliases }

-- `if len(self._alias_stack) > 1: self._alias_stack.pop()`
abbrev pub popped : List (Dict Text Text) → State → State
popped [] s = s
popped (d ∷ ds) s = record s { aliases = d; outer_aliases = ds }

abbrev pub pop_scope : State → State
pop_scope s = popped s.outer_aliases s

abbrev pub tail {ℓ} : {A : Type ℓ} → List A → List A
tail [] = []
tail (x ∷ xs) = xs

abbrev pub enter_region : Region → State → State
enter_region r s = record s { region = r ∷ s.region }

abbrev pub leave_region : State → State
leave_region s = record s { region = tail s.region }

-- `s.rsplit(c, 1)[0] if c in s else ""`
unfoldable pub before_last : ℕ → Text → Text
before_last sep [] = []
before_last sep (c ∷ s) = let rest = before_last sep s in if mem sep s then c ∷ rest else []

-- Whether a name is that of the attribute `json` of a request.
unfoldable pub of_request : Text → Bool
unfolding before_last
of_request full =
    mem (after_last b'.' (before_last b'.' full)) (codes "request" ∷ codes "Request" ∷ [])

abbrev pub json_record : Text → ℕ → Call
json_record full line = record {
  name = full;
  line = some (line_of line);
  keywords = [];
  args_summary = [];
  keyword_values = [];
  has_starargs = false;
  has_kwargs = false;
  first_arg_kind = none;
  first_arg_summary = none;
  in_try = false;
}

abbrev pub end_line : ℕ → Option ℕ → ℕ
end_line start none = start
end_line start (some zero) = start
end_line start (some (suc n)) = suc n

abbrev pub emit_read : Option Text → ℕ → State → State
emit_read none line s = s
emit_read (some full) line s = emit_call (json_record full line) s

abbrev pub enter_function : Function → State → State
enter_function fn s = push_scope (record s {
  functions = s.functions ++ fn ∷ [];
  fn_stack = record { index = length s.functions; name = fn.name } ∷ s.fn_stack;
})

abbrev pub leave_function : State → State
leave_function s = let t = pop_scope s in record t { fn_stack = tail t.fn_stack }

abbrev pub handler_record : Option Text → ℕ → Option Text → Nodes → ExceptHandler
handler_record in_function line type body = record {
  line = some line;
  type = type;
  body_kind = body_kind body;
  in_function = in_function;
}

abbrev pub initial : State
initial = record {
  functions = [];
  except_handlers = [];
  calls = [];
  aliases = [];
  outer_aliases = [];
  fn_stack = [];
  region = [];
}

abbrev pub result : State → Facts
result s = record { calls = s.calls; except_handlers = s.except_handlers; functions = s.functions }

module _ (unparse : Node → Text) where
  -- The attribute as `visit_Attribute` names it, if it emits it.
  unfoldable pub json_read : Bool → Node → Text → Bool → Dict Text Text → Option Text
  unfolding of_request
  json_read is_func node attr load aliases =
      let full = resolve (dotted unparse node) aliases in
      if not is_func && (load && (attr == codes "json" && of_request full)) then some full else none

  abbrev pub function_record : Bool → Text → ℕ → Option ℕ → Nodes → Function
  function_record is_async id start end decorators = record {
    name = id;
    is_async = is_async;
    line_start = start;
    line_end = end_line start end;
    decorators = map_nodes unparse decorators;
    calls = [];
  }

  -- The first loop of `visit_Try`.
  unfoldable pub handler_records : Option Text → Handlers → List ExceptHandler
  handler_records fn done = []
  handler_records fn (bare line body more) =
      handler_record fn line none body ∷ handler_records fn more
  handler_records fn (handler line type body more) =
      handler_record fn line (handler_type unparse type) body ∷ handler_records fn more

  abbrev pub note_handlers : Handlers → State → State
  note_handlers handlers s = record s {
    except_handlers = s.except_handlers ++ handler_records (name_on_top s.fn_stack) handlers;
  }

  -- `visit`, with whether the node is the `func` of the call that is its parent, and its loops.
  unfoldable mutual
    unfolding emit_call json_read handler_records

    pub visit : Bool → Node → State → State
    visit is_func (name id) s = s
    visit is_func (attribute line value attr load) s =
        visit false value (
          emit_read (json_read is_func (attribute line value attr load) attr load s.aliases) line s)
    visit is_func (call line func args keywords) s = visit_keywords keywords (
        visit_all args
          (visit true func (emit_call (call_record unparse line func args keywords s.aliases) s)))
    visit is_func (subscript value slice) s = visit false slice (visit false value s)
    visit is_func (constant c) s = s
    visit is_func (joined_str values) s = visit_all values s
    visit is_func (formatted_value value spec) s = visit_all spec (visit false value s)
    visit is_func (add left right) s = visit false right (visit false left s)
    visit is_func (starred value) s = visit false value s
    visit is_func (tuple elts) s = visit_all elts s
    visit is_func (expr value) s = visit false value s
    visit is_func pass s = s
    visit is_func (import_stmt names) s = record s { aliases = visit_import names s.aliases }
    visit is_func (import_from source names) s = record s {
      aliases = visit_import_from source names s.aliases;
    }
    visit is_func (function_def is_async id start end decorators annotations returns body) s =
        leave_function (
          visit_all body (
            visit_all returns (
              visit_all annotations (
                visit_all decorators
                  (enter_function (function_record is_async id start end decorators) s)))))
    visit is_func (class_def children) s = pop_scope (visit_all children (push_scope s))
    visit is_func (other children) s = visit_all children s
    visit is_func (try_stmt body handlers orelse finalbody) s =
        let tried =
          leave_region (visit_all body (enter_region try_region (note_handlers handlers s))) in
        let caught = visit_handlers handlers tried in
        let finished = leave_region (visit_all orelse (enter_region else_region caught)) in
        leave_region (visit_all finalbody (enter_region finally_region finished))

    pub visit_all : Nodes → State → State
    visit_all nil s = s
    visit_all (cons n ns) s = visit_all ns (visit false n s)

    pub visit_keywords : Keywords → State → State
    visit_keywords no_more s = s
    visit_keywords (keyword arg value more) s = visit_keywords more (visit false value s)

    pub visit_handlers : Handlers → State → State
    visit_handlers done s = s
    visit_handlers (bare line body more) s =
        visit_handlers more (leave_region (visit_all body (enter_region except_region s)))
    visit_handlers (handler line type body more) s =
        visit_handlers more
          (leave_region (visit_all body (visit false type (enter_region except_region s))))

  -- `parse` is `ast.parse`, with none where it raises a `SyntaxError` or a `ValueError`.
  unfoldable pub load_facts : (Text → Text → Option Node) → Text → Text → Option Facts
  load_facts parse source filename = elim (parse source filename) [
    | none ↦ none
    | some tree ↦ some (result (visit false tree initial))
  ]
