-- ===== src/Pyast/Calls.antt =====
-- checkers/pyast_client.py: what it records of a call and of a handler.
use deslop.Prelude.{
  ℕ, zero, suc, Bool, true, false, ◌&&◌, ◌||◌, not, List, [], ◌∷◌, Text, codes, Option, none, some,
  Dict, assign, take, if◌then◌else◌, ◌==◌, nat_eq, list_eq,
}
use deslop.Texts.Join.{join}
use deslop.Pyast.{resolve}
use deslop.Pyast.Facts.{Call}
use deslop.Pyast.Tree.{
  string, ellipsis, Node, name, attribute, call, constant, joined_str, formatted_value, add,
  starred, tuple, expr, pass, Nodes, nil, cons, Keywords, no_more, keyword, dotted, map_nodes,
}

abbrev pub is_static_constant : Node → Bool
is_static_constant (constant c) = true
is_static_constant _ = false

abbrev pub is_starred : Node → Bool
is_starred (starred value) = true
is_starred _ = false

abbrev pub any_node : (Node → Bool) → Nodes → Bool
any_node p nil = false
any_node p (cons n ns) = p n || any_node p ns

-- `any(kw.arg is None for kw in keywords)`
abbrev pub has_double_star : Keywords → Bool
has_double_star no_more = false
has_double_star (keyword none value more) = true
has_double_star (keyword (some arg) value more) = has_double_star more

-- `_is_static_str_expr`, with its loops over the parts of an f-string, the arguments and the keywords
unfoldable mutual
  pub is_static_str_expr : Node → Bool
  is_static_str_expr (constant string) = true
  is_static_str_expr (joined_str values) = static_parts values
  is_static_str_expr (add left right) = is_static_str_expr left && is_static_str_expr right
  is_static_str_expr (call line (attribute at value attr load) args keywords) =
      attr == codes "format"
      && (is_static_str_expr value
          && (not (any_node is_starred args)
              && (not (has_double_star keywords)
                  && (static_args args && static_keywords keywords))))
  is_static_str_expr _ = false

  pub static_parts : Nodes → Bool
  static_parts nil = true
  static_parts (cons (constant string) parts) = static_parts parts
  static_parts (cons (formatted_value value spec) parts) =
      (is_static_constant value || is_static_str_expr value) && static_parts parts
  static_parts (cons _ parts) = false

  pub static_args : Nodes → Bool
  static_args nil = true
  static_args (cons n ns) = (is_static_str_expr n || is_static_constant n) && static_args ns

  pub static_keywords : Keywords → Bool
  static_keywords no_more = true
  static_keywords (keyword arg value more) =
      (is_static_str_expr value || is_static_constant value) && static_keywords more

-- The kinds behind the first test of `_first_arg_kind`.
abbrev pub shape_kind : Node → Text
shape_kind (joined_str values) = codes "fstring"
shape_kind (add left right) = codes "concat"
shape_kind (call line (attribute at value attr load) args keywords) =
    if attr == codes "format" then codes "format" else codes "other"
shape_kind (name id) = codes "name"
shape_kind _ = codes "other"

unfoldable pub first_arg_kind : Node → Text
unfolding is_static_str_expr
first_arg_kind arg = if is_static_str_expr arg then codes "string_literal" else shape_kind arg

-- `getattr(node, "lineno", 1) or 1`
abbrev pub line_of : ℕ → ℕ
line_of zero = 1
line_of (suc n) = suc n

-- `a or b`
abbrev pub or_text : Text → Text → Text
or_text [] b = b
or_text (c ∷ a) b = c ∷ a

-- `[kw.arg for kw in node.keywords if kw.arg]`
abbrev onto_args : Option Text → List Text → List Text
onto_args none args = args
onto_args (some []) args = args
onto_args (some (c ∷ arg)) args = (c ∷ arg) ∷ args

unfoldable pub keyword_args : Keywords → List Text
keyword_args no_more = []
keyword_args (keyword arg value more) = onto_args arg (keyword_args more)

-- `node.args[0] if node.args else None`
abbrev pub map_first : {A : Type 0} → (Node → A) → Nodes → Option A
map_first f nil = none
map_first f (cons n ns) = some (f n)

unfoldable pub body_kind : Nodes → Text
body_kind (cons pass nil) = codes "pass"
body_kind (cons (expr (constant ellipsis)) nil) = codes "ellipsis"
body_kind (cons (expr (name id)) nil) =
    if id == codes "Ellipsis" then codes "ellipsis" else codes "other"
body_kind _ = codes "other"

module _ (unparse : Node → Text) where
  -- `keyword_values`; a later keyword of the same name replaces the value.
  unfoldable pub keyword_values_onto : Dict Text Text → Keywords → Dict Text Text
  keyword_values_onto d no_more = d
  keyword_values_onto d (keyword none value more) = keyword_values_onto d more
  keyword_values_onto d (keyword (some arg) value more) =
      keyword_values_onto (assign arg (unparse value) d) more

  -- `in_try` is set where the record is emitted.
  unfoldable pub call_record : ℕ → Node → Nodes → Keywords → Dict Text Text → Call
  unfolding dotted keyword_args keyword_values_onto first_arg_kind
  call_record line func args keywords aliases = record {
    name = resolve (dotted unparse func) aliases;
    line = some (line_of line);
    keywords = keyword_args keywords;
    args_summary = map_nodes (λ a. take 80 (unparse a)) args;
    keyword_values = keyword_values_onto [] keywords;
    has_starargs = any_node is_starred args;
    has_kwargs = has_double_star keywords;
    first_arg_kind = map_first first_arg_kind args;
    first_arg_summary = map_first (λ a. take 80 (unparse a)) args;
    in_try = false;
  }

  -- `_dotted(node) or _unparse(node)`
  abbrev pub named : Node → Text
  named n = or_text (dotted unparse n) (unparse n)

  abbrev joined_or_none : List Text → Option Text
  joined_or_none [] = none
  joined_or_none (t ∷ ts) = some (join (codes " | ") (t ∷ ts))

  -- `_handler_type` of a handler with a type
  unfoldable pub handler_type : Node → Option Text
  unfolding dotted join
  handler_type (tuple elts) = joined_or_none (map_nodes named elts)
  handler_type n = some (named n)
