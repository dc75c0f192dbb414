-- ===== src/Pyast/Static.antt =====
-- checkers/pyast_client.py: what `_is_static_str_expr` takes for a string that is known.
use deslop.Prelude.{Bool, true, false, ◌&&◌, ◌||◌, codes, nat_eq, list_eq, ◌≡◌, refl, arith}
use deslop.Pyast.Tree.{
  Node, name, attribute, call, subscript, constant, joined_str, formatted_value, add, starred,
  tuple, expr, pass, import_stmt, import_from, function_def, class_def, other, try_stmt, Nodes, nil,
  cons, Keywords, no_more, keyword, string, ellipsis, number,
}
use deslop.Pyast.Calls.{
  is_static_constant, is_static_str_expr, static_parts, static_args, static_keywords,
  first_arg_kind,
}

-- The expression reads a name, or is of a kind that is not looked into. The format specifications of
-- f-strings are left out.
unfoldable mutual
  pub reads : Node → Bool
  reads (attribute line value attr load) = reads value
  reads (call line func args keywords) = reads func || (reads_any args || reads_keywords keywords)
  reads (constant c) = false
  reads (joined_str values) = reads_any values
  reads (formatted_value value spec) = reads value
  reads (add left right) = reads left || reads right
  reads _ = true

  pub reads_any : Nodes → Bool
  reads_any nil = false
  reads_any (cons n ns) = reads n || reads_any ns

  pub reads_keywords : Keywords → Bool
  reads_keywords no_more = false
  reads_keywords (keyword arg value more) = reads value || reads_keywords more

format_cases :
    (a b c d e f x y z : Bool)
    → (a && (b && (c && (d && (e && f))))) ≡ true
    → (b ≡ true → x ≡ false)
    → (e ≡ true → y ≡ false)
    → (f ≡ true → z ≡ false)
    → (x || (y || z)) ≡ false
format_cases a b c d e f x y z h i j k = ground arith

both_cases :
    (a b x y : Bool)
    → (a && b) ≡ true
    → (a ≡ true → x ≡ false)
    → (b ≡ true → y ≡ false)
    → (x || y) ≡ false
both_cases a b x y h i j = ground arith

either_cases :
    (a b c x y : Bool)
    → ((a || b) && c) ≡ true
    → (a ≡ true → x ≡ false)
    → (b ≡ true → x ≡ false)
    → (c ≡ true → y ≡ false)
    → (x || y) ≡ false
either_cases a b c x y h i j k = ground arith

constant-reads : (n : Node) → is_static_constant n ≡ true → reads n ≡ false
unfolding reads
constant-reads (name id) h = cc
constant-reads (attribute l v a b) h = cc
constant-reads (call l f as' ks) h = cc
constant-reads (subscript v i) h = cc
constant-reads (constant c) h = refl
constant-reads (joined_str vs) h = cc
constant-reads (formatted_value v sp) h = cc
constant-reads (add x y) h = cc
constant-reads (starred v) h = cc
constant-reads (tuple es) h = cc
constant-reads (expr v) h = cc
constant-reads pass h = cc
constant-reads (import_stmt ns) h = cc
constant-reads (import_from src ns) h = cc
constant-reads (function_def b id st en ds an rs bd) h = cc
constant-reads (class_def cs) h = cc
constant-reads (other cs) h = cc
constant-reads (try_stmt bd hs os fs) h = cc

mutual
  unfolding is_static_str_expr reads

  static-reads : (n : Node) → is_static_str_expr n ≡ true → reads n ≡ false
  static-reads (name id) h = cc
  static-reads (attribute l v a b) h = cc
  static-reads (call l (name _) as' ks) h = cc
  static-reads (call l (attribute at v a b) as' ks) h =
      format_cases _ _ _ _ _ _ _ _ _ h (static-reads v) (static_args-reads as')
        (static_keywords-reads ks)
  static-reads (call l (call _ _ _ _) as' ks) h = cc
  static-reads (call l (subscript _ _) as' ks) h = cc
  static-reads (call l (constant _) as' ks) h = cc
  static-reads (call l (joined_str _) as' ks) h = cc
  static-reads (call l (formatted_value _ _) as' ks) h = cc
  static-reads (call l (add _ _) as' ks) h = cc
  static-reads (call l (starred _) as' ks) h = cc
  static-reads (call l (tuple _) as' ks) h = cc
  static-reads (call l (expr _) as' ks) h = cc
  static-reads (call l pass as' ks) h = cc
  static-reads (call l (import_stmt _) as' ks) h = cc
  static-reads (call l (import_from _ _) as' ks) h = cc
  static-reads (call l (function_def _ _ _ _ _ _ _ _) as' ks) h = cc
  static-reads (call l (class_def _) as' ks) h = cc
  static-reads (call l (other _) as' ks) h = cc
  static-reads (call l (try_stmt _ _ _ _) as' ks) h = cc
  static-reads (subscript v i) h = cc
  static-reads (constant c) h = refl
  static-reads (joined_str vs) h = static_parts-reads vs h
  static-reads (formatted_value v sp) h = cc
  static-reads (add x y) h = both_cases _ _ _ _ h (static-reads x) (static-reads y)
  static-reads (starred v) h = cc
  static-reads (tuple es) h = cc
  static-reads (expr v) h = cc
  static-reads pass h = cc
  static-reads (import_stmt ns) h = cc
  static-reads (import_from src ns) h = cc
  static-reads (function_def b id st en ds an rs bd) h = cc
  static-reads (class_def cs) h = cc
  static-reads (other cs) h = cc
  static-reads (try_stmt bd hs os fs) h = cc

  static_parts-reads : (ns : Nodes) → static_parts ns ≡ true → reads_any ns ≡ false
  static_parts-reads nil h = refl
  static_parts-reads (cons (name _) ns) h = cc
  static_parts-reads (cons (attribute _ _ _ _) ns) h = cc
  static_parts-reads (cons (call _ _ _ _) ns) h = cc
  static_parts-reads (cons (subscript _ _) ns) h = cc
  static_parts-reads (cons (constant string) ns) h = static_parts-reads ns h
  static_parts-reads (cons (constant ellipsis) ns) h = cc
  static_parts-reads (cons (constant number) ns) h = cc
  static_parts-reads (cons (joined_str _) ns) h = cc
  static_parts-reads (cons (formatted_value v sp) ns) h =
      either_cases _ _ _ _ _ h (constant-reads v) (static-reads v) (static_parts-reads ns)
  static_parts-reads (cons (add _ _) ns) h = cc
  static_parts-reads (cons (starred _) ns) h = cc
  static_parts-reads (cons (tuple _) ns) h = cc
  static_parts-reads (cons (expr _) ns) h = cc
  static_parts-reads (cons pass ns) h = cc
  static_parts-reads (cons (import_stmt _) ns) h = cc
  static_parts-reads (cons (import_from _ _) ns) h = cc
  static_parts-reads (cons (function_def _ _ _ _ _ _ _ _) ns) h = cc
  static_parts-reads (cons (class_def _) ns) h = cc
  static_parts-reads (cons (other _) ns) h = cc
  static_parts-reads (cons (try_stmt _ _ _ _) ns) h = cc

  static_args-reads : (ns : Nodes) → static_args ns ≡ true → reads_any ns ≡ false
  static_args-reads nil h = refl
  static_args-reads (cons n ns) h =
      either_cases _ _ _ _ _ h (static-reads n) (constant-reads n) (static_args-reads ns)

  static_keywords-reads : (ks : Keywords) → static_keywords ks ≡ true → reads_keywords ks ≡ false
  static_keywords-reads no_more h = refl
  static_keywords-reads (keyword arg n ks) h =
      either_cases _ _ _ _ _ h (static-reads n) (constant-reads n) (static_keywords-reads ks)

-- An expression that is taken for a static string reads no name outside of the format specifications of
-- f-strings, and it is recorded as a string literal.
pub is_static_str_expr-reads :
    (n : Node)
    → is_static_str_expr n ≡ true
    → (reads n ≡ false) × (first_arg_kind n ≡ codes "string_literal")
unfolding first_arg_kind
is_static_str_expr-reads n h = (static-reads n h, rw h refl)
