-- ===== src/Install/Emit.antt =====
-- scripts/install.py: what an installation writes: the skills, the manifest, the rules for Cursor and the
-- instructions for GitHub.
use deslop.Prelude.{
  ℕ, false, List, [], ◌∷◌, ◌++◌, Text, codes, Option, none, some, Dict, lookup, if◌then◌else◌, ◌==◌,
  nat_eq, list_eq,
}
use deslop.Errors.{Result, ok, raised, file_not_found}
use deslop.Texts.Strip.{is_space}
use deslop.Texts.Join.{join}
use deslop.Packs.{Pack, get_or, or_else}
use deslop.Packs.Load.{pack_folder_name}
use deslop.Packs.Skills.{
  Yaml, SkillDir, Frontmatter, RuleHeader, skill_text, skill_markdown_body, parse_skill_frontmatter,
  invariant_skill_dirs, pack_skill_globs, pack_glob_union, required,
}
use deslop.Install.Actions.{M, ◌>>=◌, ◌>>◌, pure, lift, change}
use deslop.Install.Files.{write_text, mkdir, mkdir_parents, remove_tree}
use deslop.Install.Places.{
  manifest_path, rules_root, mdc_path, instructions_root, github_instructions_path,
}

-- `text.split()`
abbrev onto_words : ℕ → Text → List Text → List Text
onto_words c [] ws = (c ∷ []) ∷ ws
onto_words c (d ∷ s) [] = (c ∷ []) ∷ []
onto_words c (d ∷ s) (w ∷ ws) = if is_space d then (c ∷ []) ∷ w ∷ ws else (c ∷ w) ∷ ws

unfoldable pub words : Text → List Text
words [] = []
words (c ∷ s) = let ws = words s in if is_space c then ws else onto_words c s ws

unfoldable pub one_line : Text → Text
unfolding words join
one_line text = join (codes " ") (words text)

-- The file `SKILL.md` of `pack_index_dir(pack)`
unfoldable pub find_dir : Text → List SkillDir → Option SkillDir
find_dir name [] = none
find_dir name (s ∷ ss) = let rest = find_dir name ss in if s.name == name then some s else rest

unfoldable pub pack_index : List SkillDir → Pack → Result SkillDir
unfolding find_dir
pack_index dirs p = elim (find_dir (pack_folder_name p) dirs) [
  | none ↦ raised (file_not_found (pack_folder_name p))
  | some s ↦ ok s
]

-- The arguments behind the target: the skills' directories and the time.
module _ (yaml : Yaml) (dirs : List SkillDir) where
  -- The loop of `_copy_pack`.
  unfoldable pub copy_references : List Text → List SkillDir → M (List (List Text))
  copy_references references [] = pure []
  copy_references references (s ∷ ss) = elim s.skill_md [
    | none ↦ copy_references references ss
    | some text ↦ do
      let copied = references ++ (s.name ++ codes ".md") ∷ []
      change (write_text copied text)
      rest ← copy_references references ss
      pure (copied ∷ rest)
  ]

  -- `_copy_pack` behind its `dest.mkdir`
  unfoldable pub copy_skills : List Text → Pack → M (List (List Text))
  unfolding pack_index copy_references
  copy_skills dest p = do
    index ← lift (pack_index dirs p)
    text ← lift (skill_text index)
    change (write_text (dest ++ codes "SKILL.md" ∷ []) text)
    let references = dest ++ codes "references" ∷ []
    change (remove_tree references)
    change (mkdir references)
    matched ← lift (invariant_skill_dirs yaml dirs p.pack_id)
    copied ← copy_references references matched
    pure ((dest ++ codes "SKILL.md" ∷ []) ∷ copied)

  unfoldable pub copy_pack : List Text → Pack → M (List (List Text))
  unfolding copy_skills
  copy_pack dest p = do change (mkdir_parents dest); copy_skills dest p

  unfoldable pub write_manifest : Text → List Text → Pack → M (List Text)
  write_manifest now dest p = do
    version ← lift (required (codes "version") p.version)
    change (
        write_text (manifest_path dest) (
          yaml.dump_manifest (record {
            pack_id = p.pack_id;
            version = version;
            layout = codes "pack-index";
            installed_at = now;
          })))
    pure (manifest_path dest)

  -- The text of a file with a header, and the header of a skill's rule.
  abbrev with_header : Text → Text → Text
  with_header header body = codes "---\n" ++ (header ++ (codes "---\n\n" ++ body))

  abbrev rule_header : Text → Text → Frontmatter → RuleHeader
  rule_header name glob frontmatter = record {
    description = one_line (get_or name (or_else frontmatter.description none));
    globs = glob;
    always_apply = false;
  }

  -- The loop of `_emit_cursor_rules`.
  unfoldable pub emit_rules : Dict Text Text → List SkillDir → M (List (List Text))
  unfolding one_line
  emit_rules globs [] = pure []
  emit_rules globs (s ∷ ss) = do
    glob ← lift (required s.name (lookup s.name globs))
    frontmatter ← lift (parse_skill_frontmatter yaml s)
    body ← lift (skill_markdown_body s)
    change (
        write_text (mdc_path s.name)
          (with_header (yaml.dump_rule (rule_header s.name glob frontmatter)) body))
    rest ← emit_rules globs ss
    pure (mdc_path s.name ∷ rest)

  unfoldable pub emit_cursor_rules : Pack → M (List (List Text))
  unfolding emit_rules
  emit_cursor_rules p = do
    globs ← lift (pack_skill_globs p)
    change (mkdir_parents rules_root)
    matched ← lift (invariant_skill_dirs yaml dirs p.pack_id)
    emit_rules globs matched

  unfoldable pub emit_github_instructions : Pack → M (List (List Text))
  unfolding join pack_index
  emit_github_instructions p = do
    globs ← lift (pack_glob_union p)
    index ← lift (pack_index dirs p)
    body ← lift (skill_markdown_body index)
    change (mkdir_parents instructions_root)
    change (
        write_text (github_instructions_path p)
          (with_header (yaml.dump_apply_to (join (codes ",") globs)) body))
    pure (github_instructions_path p ∷ [])
