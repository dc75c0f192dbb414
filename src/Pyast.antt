-- ===== src/Pyast.antt =====
-- checkers/pyast_client.py: the names of calls, as the imports of a Python file resolve them.
pub mod Laws
pub mod Facts
pub mod Tree
pub mod Calls
pub mod Visitor
pub mod Scopes
pub mod Static
use deslop.Prelude.{
  ℕ, Bool, List, [], ◌∷◌, ◌++◌, Text, codes, Option, none, some, Dict, lookup, assign,
  if◌then◌else◌, ◌==◌, nat_eq, list_eq, list_beq,
}
use deslop.Packs.{get_or, or_else}

-- `f"{a}.{b}" if b else a`
abbrev pub with_rest : Text → Text → Text
with_rest a [] = a
with_rest a (c ∷ b) = a ++ b'.' ∷ c ∷ b

-- `name.partition(".")`: what stands before the first dot, and what behind it
unfoldable pub before_dot : Text → Text
before_dot [] = []
before_dot (c ∷ s) = let rest = before_dot s in if c == b'.' then [] else c ∷ rest

unfoldable pub after_dot : Text → Text
after_dot [] = []
after_dot (c ∷ s) = let rest = after_dot s in if c == b'.' then s else rest

unfoldable pub resolve : Text → Dict Text Text → Text
unfolding before_dot after_dot
resolve [] aliases = []
resolve (c ∷ s) aliases =
    let head = before_dot (c ∷ s) in
    with_rest (get_or head (lookup head aliases)) (after_dot (c ∷ s))

pub record Alias : Type 0 where
  pub name : Text
  pub asname : Option Text

-- `alias.asname or default`
abbrev pub bound : Text → Alias → Text
bound default alias = get_or default (or_else alias.asname none)

unfoldable pub visit_import : List Alias → Dict Text Text → Dict Text Text
visit_import [] aliases = aliases
visit_import (a ∷ names) aliases =
    visit_import names (assign (bound (before_dot a.name) a) a.name aliases)

-- The loop over the names, for a module that is given.
unfoldable pub import_names : Text → List Alias → Dict Text Text → Dict Text Text
import_names module_name [] aliases = aliases
import_names module_name (a ∷ names) aliases = import_names module_name names (
    if a.name == codes "*"
    then aliases
    else assign (bound a.name a) (module_name ++ b'.' ∷ a.name) aliases)

unfoldable pub visit_import_from : Option Text → List Alias → Dict Text Text → Dict Text Text
unfolding import_names
visit_import_from none names aliases = aliases
visit_import_from (some module_name) names aliases = import_names module_name names aliases
