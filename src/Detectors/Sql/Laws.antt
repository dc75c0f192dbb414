-- ===== src/Detectors/Sql/Laws.antt =====
-- Which lines the detectors of dynamic SQL report.
use deslop.Prelude.{
  ℕ, Bool, true, false, ◌&&◌, ◌||◌, not, List, [], ◌∷◌, Text, codes, Option, none, some, mem, any,
  starts_with, ends_with, after_last, list_beq, list_beq_iff, beq_comm, if◌then◌else◌, ◌==◌, nat_eq,
  list_eq, ◌≡◌, refl, arith,
}
use deslop.Checkers.Common.{is_skipped}
use deslop.Pyast.Facts.{Call, Facts}
use deslop.Pyast.Visitor.{before_last}
use deslop.Detectors.{line_or_one}
use deslop.Detectors.Python.{python}
use deslop.Detectors.Laws.{Exact, in_facts, detect_in-Exact, any-items, is_some}
use deslop.Detectors.Handlers.{Facts as GoFacts}
use deslop.Detectors.Sql.Python.{
  admin_prefix, dynamic_kinds, or_empty, is_sql_surface, is_sqlalchemy_text, statement, admin_sql,
  dynamic_item, dynamic_message, dynamic_rule, detect_dynamic,
}
use deslop.Detectors.Sql.Built.{built_lines, detect_go-Exact}
use deslop.Detectors.Sql.Go.{go_rule, detect_go}

-- The last names of the receivers whose `execute` is taken for that of a database.
abbrev receivers : List Text
receivers = codes "conn" ∷ codes "connection" ∷ codes "cursor" ∷ codes "session" ∷ []

-- The name is SQLAlchemy's `text`, a method that executes many statements or a script, or the method
-- `execute` of a receiver with one of the names.
abbrev runs_sql : (Text → Text) → Text → Bool
runs_sql lower name =
    let method = after_last b'.' name in
    (starts_with name (codes "sqlalchemy.") && ends_with name (codes ".text"))
    || (mem b'.' name
        && ((method == codes "executemany" || method == codes "executescript")
            || (method == codes "execute"
                && mem (lower (after_last b'.' (before_last b'.' name))) receivers)))

sqlalchemy_text :
    (name : Text)
    → (name == codes "sqlalchemy.text") ≡ true
    → starts_with name (codes "sqlalchemy.") ≡ true
unfolding starts_with
sqlalchemy_text name h = rw ((list_beq_iff name (codes "sqlalchemy.text")).0 h) refl

surface_cases :
    (text whole under dot in_table one many script conn connection cursor session : Bool)
    → (whole ≡ true → under ≡ true)
    → in_table ≡ (one || (many || script))
    → (if (if not text then false else whole || under)
        then true
        else if not dot
        then false
        else if not in_table
        then false
        else if many || script
        then true
        else (cursor || (connection || (conn || (session || false)))))
      ≡ ((under && text)
          || (dot
              && ((many || script)
                  || (one && (conn || (connection || (cursor || (session || false))))))))
surface_cases text whole under dot in_table one many script conn connection cursor session h k =
    ground arith

mem-methods :
    (m : Text)
    → mem m (codes "execute" ∷ codes "executemany" ∷ codes "executescript" ∷ [])
      ≡ (m == codes "execute" || (m == codes "executemany" || m == codes "executescript"))
unfolding mem
mem-methods m =
    rw
      (
        beq_comm (codes "execute") m,
        beq_comm (codes "executemany") m,
        beq_comm (codes "executescript") m,
      )
      (ground arith)

is_sql_surface-runs_sql :
    (lower : Text → Text) (name : Text) → is_sql_surface lower name ≡ runs_sql lower name
unfolding is_sql_surface is_sqlalchemy_text ends_with starts_with mem list_beq
is_sql_surface-runs_sql lower [] = refl
is_sql_surface-runs_sql lower (c ∷ name) =
    surface_cases (ends_with (c ∷ name) (codes ".text")) _ _ (mem b'.' (c ∷ name)) _
      (method == codes "execute") (method == codes "executemany") (method == codes "executescript")
      (codes "conn" == receiver) (codes "connection" == receiver) (codes "cursor" == receiver)
      (codes "session" == receiver) (sqlalchemy_text (c ∷ name)) (mem-methods method)
  where
    method : Text
    method = after_last b'.' (c ∷ name)

    receiver : Text
    receiver = lower (after_last b'.' (before_last b'.' (c ∷ name)))

module _ (lower : Text → Text) (pragma_secret : Text → Bool) where
  -- The statement administers the session: it begins so, or sets a pragma that is no secret.
  abbrev pub is_admin : Text → Bool
  is_admin text =
      any (starts_with text) admin_prefix
      || (starts_with text (codes "pragma ") && not (pragma_secret text))

  abbrev pub is_built : Call → Option Text → Bool
  is_built c none = false
  is_built c (some kind) =
      mem kind dynamic_kinds && not (is_admin (statement lower (or_empty c.first_arg_summary)))

  dynamic_message-built :
      (c : Call) (o : Option Text)
      → is_some (dynamic_message lower pragma_secret c o) ≡ is_built c o
  unfolding admin_sql
  dynamic_message-built c none = refl
  dynamic_message-built c (some kind) = ground arith

  module _ (load_facts : Text → Text → Option Facts) where
    abbrev pub dynamic_lines : Text → Text → ℕ → Bool
    dynamic_lines source filename n =
        in_facts (is_skipped filename python false) (load_facts source filename) (λ facts.
          any
            (λ c.
              (line_or_one c.line == n)
              && (runs_sql lower c.name
                  && (not (c.has_starargs || c.has_kwargs) && is_built c c.first_arg_kind)))
            facts.calls)

    detect_dynamic-Exact :
        (source filename : Text)
        → Exact dynamic_rule
            (dynamic_lines source filename)
            (detect_dynamic lower pragma_secret load_facts source filename)
    unfolding detect_dynamic dynamic_item
    detect_dynamic-Exact source filename = detect_in-Exact _ _ _ _ _ (λ facts n.
        any-items n (dynamic_item lower pragma_secret) _ facts.calls (λ c.
          ground (
            arith,
            is_sql_surface-runs_sql lower c.name,
            dynamic_message-built c c.first_arg_kind,
          )))

-- In Python files in scope with facts, the first detector has one finding for each line with a call
-- that spreads no arguments, of SQLAlchemy's `text`, of a method `executemany` or `executescript`, or
-- of `execute` on a receiver whose last name is cursor, connection, conn or session, and whose first
-- argument is built at run time and does not administer the session. In Go files in scope with facts,
-- the second one has one finding for each line with a call of a query method that has an argument,
-- written out or as last assigned, that reads as SQL and is built at run time, or that has a
-- `.String()` in an argument while the function writes SQL with a method `WriteString`. They have no
-- other finding.
pub sql-Exact :
    (lower : Text → Text) (pragma_secret sql_verb ident_after_plus : Text → Bool)
    (strip_lits : Text → Text) (load_python : Text → Text → Option Facts)
    (load_go : Text → Text → Option GoFacts) (source filename : Text)
    → Exact dynamic_rule
        (dynamic_lines lower pragma_secret load_python source filename)
        (detect_dynamic lower pragma_secret load_python source filename)
      × Exact go_rule
          (built_lines sql_verb ident_after_plus strip_lits load_go source filename)
          (detect_go sql_verb ident_after_plus strip_lits load_go source filename)
sql-Exact lower pragma_secret sql_verb ident_after_plus strip_lits load_python load_go source
      filename =
    (
      detect_dynamic-Exact lower pragma_secret load_python source filename,
      detect_go-Exact sql_verb ident_after_plus strip_lits load_go source filename,
    )
