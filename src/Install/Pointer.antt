-- ===== src/Install/Pointer.antt =====
-- scripts/install.py: the line of AGENTS.md that points to the rules.
pub mod Laws
use deslop.Prelude.{
  ℕ, Bool, true, false, ◌||◌, ◌&&◌, not, List, [], ◌∷◌, ◌++◌, Text, codes, contains, ends_with,
  if◌then◌else◌, ◌==◌, nat_eq, list_eq,
}
use deslop.Install.Actions.{M, ◌>>◌, pure, change}
use deslop.Install.Files.{FileTree, read_text, write_text}

abbrev pub pointer_mark : Text
pointer_mark = codes "stopthatslop-*.mdc"

abbrev pub agents_pointer : Text
agents_pointer =
    codes "StopThatSlop: glob-scoped Cursor rules in `.cursor/rules/"
    ++ (pointer_mark ++ codes "` (the harness decides whether to load them).")

abbrev pub has_pointer : Text → Bool
has_pointer text = contains text pointer_mark || contains text (codes "stopthatslop-\\*.mdc")

-- `text.rstrip("\n")`
abbrev pub onto_rest : ℕ → Text → Text
onto_rest c [] = if c == b'\n' then [] else c ∷ []
onto_rest c (d ∷ s) = c ∷ d ∷ s

unfoldable pub rstrip_newlines : Text → Text
rstrip_newlines [] = []
rstrip_newlines (c ∷ s) = onto_rest c (rstrip_newlines s)

-- The two assignments to `prefix`.
abbrev pub end_line : Text → Text
end_line existing =
    if ends_with existing (codes "\n") || (existing == []) then existing else existing ++ codes "\n"

abbrev pub end_paragraph : Text → Text
end_paragraph prefix =
    if not (prefix == []) && not (ends_with prefix (codes "\n\n"))
    then rstrip_newlines prefix ++ codes "\n\n"
    else prefix

unfoldable pub pointer_prefix : Text → Text
unfolding rstrip_newlines
pointer_prefix existing = end_paragraph (end_line existing)

abbrev pub agents_md : List Text
agents_md = codes "AGENTS.md" ∷ []

unfoldable pub add_pointer : FileTree → FileTree
unfolding pointer_prefix
add_pointer fs =
    let existing = read_text agents_md fs in
    if has_pointer existing
    then fs
    else write_text agents_md (pointer_prefix existing ++ (agents_pointer ++ codes "\n")) fs

unfoldable pub maybe_write_agents_md : Bool → M (List (List Text))
unfolding add_pointer
maybe_write_agents_md false = pure []
maybe_write_agents_md true = do change add_pointer; pure (agents_md ∷ [])
