-- ===== src/Pyast/Tree.antt =====
-- The trees that Python's `ast.parse` gives, as far as checkers/pyast_client.py tells their nodes apart,
-- and the dotted names of expressions. A child that may be missing is a list of at most one.
use deslop.Prelude.{ℕ, Bool, List, [], ◌∷◌, ◌++◌, Text, Option}
use deslop.Pyast.{Alias}

pub data Constant : Type 0 where
  string : Constant
  ellipsis : Constant
  number : Constant

mutual
  pub data Node : Type 0 where
    name : Text → Node
    -- The line, the value, the attribute, and whether it is read (`ctx` is a `Load`).
    attribute : ℕ → Node → Text → Bool → Node
    call : ℕ → Node → Nodes → Keywords → Node
    subscript : Node → Node → Node
    constant : Constant → Node
    joined_str : Nodes → Node
    -- The value, and the format specification.
    formatted_value : Node → Nodes → Node
    -- A `BinOp` whose operator is `Add`.
    add : Node → Node → Node
    starred : Node → Node
    tuple : Nodes → Node
    -- The statement `Expr`.
    expr : Node → Node
    pass : Node
    import_stmt : List Alias → Node
    import_from : Option Text → List Alias → Node
    -- Whether it is async, the name, the first and the last line, the decorators, the annotations of
    -- `args.args`, the one of the result, and the body.
    function_def : Bool → Text → ℕ → Option ℕ → Nodes → Nodes → Nodes → Nodes → Node
    -- The children in the order of `iter_child_nodes`, also of another node.
    class_def : Nodes → Node
    other : Nodes → Node
    -- The body, the handlers, `else` and `finally`.
    try_stmt : Nodes → Handlers → Nodes → Nodes → Node

  pub data Nodes : Type 0 where
    nil : Nodes
    cons : Node → Nodes → Nodes

  -- An argument without a name is `**value`.
  pub data Keywords : Type 0 where
    no_more : Keywords
    keyword : Option Text → Node → Keywords → Keywords

  -- The line, the type and the body.
  pub data Handlers : Type 0 where
    done : Handlers
    bare : ℕ → Nodes → Handlers → Handlers
    handler : ℕ → Node → Nodes → Handlers → Handlers

-- `f"{base}.{attr}" if base else attr`
abbrev onto_base : Text → Text → Text
onto_base [] attr = attr
onto_base (c ∷ base) attr = (c ∷ base) ++ b'.' ∷ attr

abbrev pub map_nodes : {A : Type 0} → (Node → A) → Nodes → List A
map_nodes f nil = []
map_nodes f (cons n ns) = f n ∷ map_nodes f ns

-- `unparse` is `_unparse`, the text of a node.
module _ (unparse : Node → Text) where
  unfoldable pub dotted : Node → Text
  dotted (name id) = id
  dotted (attribute line value attr load) = onto_base (dotted value) attr
  dotted (call line func args keywords) = dotted func
  dotted (subscript value slice) = dotted value
  dotted n = unparse n
