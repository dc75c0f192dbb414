-- ===== src/Detectors/Sql/Python.antt =====
-- checkers/no_python_dynamic_sql_execution.py. `str.lower` and the search of `_PRAGMA_SECRET` are
-- parameters.
use deslop.Prelude.{
  ℕ, Bool, true, false, ◌&&◌, ◌||◌, not, List, [], ◌∷◌, ◌++◌, map, Text, codes, Option, none, some,
  mem, any, starts_with, ends_with, after_last, if◌then◌else◌, ◌==◌, nat_eq, list_eq,
}
use deslop.Texts.Strip.{lstrip, strip, strip_chars}
use deslop.Checkers.Common.{Finding, is_skipped}
use deslop.Pyast.Facts.{Call, Facts}
use deslop.Pyast.Visitor.{before_last}
use deslop.Detectors.{Item, line_or_one, report_once, detect_in}
use deslop.Detectors.Python.{python}

abbrev execute_methods : List Text
execute_methods = codes "execute" ∷ codes "executemany" ∷ codes "executescript" ∷ []

abbrev execute_receivers : List Text
execute_receivers = codes "cursor" ∷ codes "connection" ∷ codes "conn" ∷ codes "session" ∷ []

abbrev pub dynamic_kinds : List Text
dynamic_kinds = codes "fstring" ∷ codes "concat" ∷ codes "format" ∷ []

abbrev pub admin_prefix : List Text
admin_prefix =
    codes "set "
    ∷ codes "alter session"
    ∷ codes "fetch "
    ∷ codes "close "
    ∷ codes "begin"
    ∷ codes "commit"
    ∷ codes "rollback"
    ∷ codes "declare "
    ∷ []

-- `_KIND_LABEL`, of the three kinds
abbrev kind_label : Text → Text
kind_label kind =
    if kind == codes "fstring"
    then codes "f-string"
    else if kind == codes "concat"
    then codes "string concatenation"
    else codes "str.format"

-- The `f` in front of a quote is dropped.
unfoldable pub without_f : Text → Text
without_f (c ∷ q ∷ s) = if mem c (codes "fF") && mem q (codes "'\"") then q ∷ s else c ∷ q ∷ s
without_f s = s

-- `s.replace("\\c", d)`, for an escape of one character
unfoldable pub replace_escape : ℕ → ℕ → Text → Text
replace_escape c d [] = []
replace_escape c d (a ∷ []) = a ∷ []
replace_escape c d (a ∷ b ∷ s) =
    let on = replace_escape c d (b ∷ s) in
    let past = replace_escape c d s in if a == b'\\' && b == c then d ∷ past else a ∷ on

unfoldable pub is_sqlalchemy_text : Text → Bool
is_sqlalchemy_text name =
    if not (ends_with name (codes ".text"))
    then false
    else name == codes "sqlalchemy.text" || starts_with name (codes "sqlalchemy.")

abbrev pub or_empty : Option Text → Text
or_empty none = []
or_empty (some t) = t

abbrev pub dynamic_rule : Text
dynamic_rule = codes "python.security.no-dynamic-sql-execution"

module _ (lower : Text → Text) where
  -- The text of the statement, as far as `_admin_sql` looks at it.
  unfoldable pub statement : Text → Text
  unfolding without_f strip strip_chars replace_escape
  statement summary =
      let text = strip_chars (codes "'\"") (strip (without_f (strip summary))) in
      lstrip
        (lower (replace_escape b'r' 13 (replace_escape b't' 9 (replace_escape b'n' b'\n' text))))

  unfoldable pub is_sql_surface : Text → Bool
  unfolding is_sqlalchemy_text before_last
  is_sql_surface name =
      let recv = before_last b'.' name in
      let meth = after_last b'.' name in
      if name == []
      then false
      else if is_sqlalchemy_text name
      then true
      else if not (mem b'.' name)
      then false
      else if not (mem meth execute_methods)
      then false
      else if meth == codes "executemany" || meth == codes "executescript"
      then true
      else mem (lower (after_last b'.' recv)) execute_receivers

module _ (lower : Text → Text) (pragma_secret : Text → Bool) where
  unfoldable pub admin_sql : Text → Bool
  unfolding statement
  admin_sql summary =
      let text = statement lower summary in
      if any (starts_with text) admin_prefix
      then true
      else if starts_with text (codes "pragma ")
      then not (pragma_secret text)
      else false

  abbrev pub dynamic_message : Call → Option Text → Option Text
  dynamic_message call none = none
  dynamic_message call (some kind) =
      if not (mem kind dynamic_kinds)
      then none
      else if admin_sql (or_empty call.first_arg_summary)
      then none
      else some (
          call.name
          ++ (codes " interpolates SQL via "
              ++ (kind_label kind ++ codes "; use bound parameters")))

  unfoldable pub dynamic_item : Call → Item
  unfolding is_sql_surface admin_sql
  dynamic_item call = record {
    line = line_or_one call.line;
    message =
        if not (is_sql_surface lower call.name)
        then none
        else if call.has_starargs || call.has_kwargs
        then none
        else dynamic_message call call.first_arg_kind;
  }

  unfoldable pub detect_dynamic : (Text → Text → Option Facts) → Text → Text → List Finding
  unfolding dynamic_item
  detect_dynamic load_facts source filename =
      detect_in (is_skipped filename python false) (load_facts source filename)
        (λ facts. report_once dynamic_rule [] (map dynamic_item facts.calls))
