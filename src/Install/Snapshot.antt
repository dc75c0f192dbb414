-- ===== src/Install/Snapshot.antt =====
-- scripts/install.py: the snapshot that an installation makes, and what a rollback restores of it.
use deslop.Prelude.{◌&&◌, List, [], ◌∷◌, ◌++◌, Text, codes, none, get_last_or, if◌then◌else◌}
use deslop.Errors.{raised, no_snapshots}
use deslop.Texts.Order.{sorted}
use deslop.Packs.{Pack, get_or, or_else}
use deslop.Packs.Skills.{Yaml, SkillDir, invariant_skill_dirs}
use deslop.Install.Actions.{M, ◌>>=◌, ◌>>◌, pure, lift, change, get}
use deslop.Install.Files.{
  FileTree, exists, read_text, mkdir, mkdir_parents, remove_tree, copytree, copy_file, subdirs,
}
use deslop.Install.Places.{
  dest_root, claude_dest, versions_root, manifest_path, rules_root, mdc_name, mdc_path,
  instructions_root, github_instructions_path, snapshot_path,
}

abbrev pub agents_part : Text
agents_part = codes "agents-skill"

abbrev pub rules_part : Text
rules_part = codes "cursor-rules"

abbrev pub claude_part : Text
claude_part = codes "claude-skill"

abbrev pub github_part : Text
github_part = codes "github-instructions.md"

-- The loop that copies the rules' files into the snapshot.
unfoldable pub save_rules : List Text → List SkillDir → FileTree → FileTree
save_rules rules [] fs = fs
save_rules rules (s ∷ ss) fs =
    save_rules rules ss (copy_file (mdc_path s.name) (rules ++ mdc_name s.name ∷ []) fs)

-- `if source.exists(): shutil.copytree(source, dest)`
unfoldable pub copy_tree_if : List Text → List Text → FileTree → FileTree
copy_tree_if src dst fs = if exists src fs then copytree src dst fs else fs

-- The loop that restores the rules' files.
unfoldable pub restore_rule : List Text → List Text → FileTree → FileTree
restore_rule src dst fs =
    if exists src fs then copy_file src dst (mkdir_parents rules_root fs) else fs

unfoldable pub restore_rules : List Text → List SkillDir → FileTree → FileTree
restore_rules rules [] fs = fs
restore_rules rules (s ∷ ss) fs =
    restore_rules rules ss (restore_rule (rules ++ mdc_name s.name ∷ []) (mdc_path s.name) fs)

-- `if source.exists():` the copy replaces what is there
unfoldable pub replace_tree : List Text → List Text → FileTree → FileTree
unfolding remove_tree
replace_tree src dst fs = if exists src fs then copytree src dst (remove_tree dst fs) else fs

unfoldable pub restore_instructions : List Text → List Text → FileTree → FileTree
restore_instructions src dst fs =
    if exists src fs then copy_file src dst (mkdir_parents instructions_root fs) else fs

-- The copy of the snapshot to `dest`, which is the whole snapshot where it has no part for it.
unfoldable pub restore_agents : List Text → List Text → FileTree → FileTree
restore_agents latest dest fs =
    if exists (latest ++ agents_part ∷ []) fs
    then copytree (latest ++ agents_part ∷ []) dest fs
    else copytree latest dest fs

unfoldable pub latest_of : List Text → Text
unfolding sorted
latest_of names = get_last_or [] (sorted names)

module _ (yaml : Yaml) (dirs : List SkillDir) where
  -- `str(previous.get("version") or "previous")`
  abbrev pub previous_version : List Text → FileTree → Text
  previous_version dest fs =
      get_or (codes "previous")
        (or_else (yaml.load_version (read_text (manifest_path dest) fs)) none)

  -- `_snapshot_if_present` behind its first test: what it does with the snapshot's path, and what
  -- follows the copy of the skills.
  unfoldable pub save_others : Pack → List Text → M (Unit {0})
  unfolding save_rules copy_tree_if
  save_others p snapshot = do
    change (mkdir (snapshot ++ rules_part ∷ []))
    matched ← lift (invariant_skill_dirs yaml dirs p.pack_id)
    change (save_rules (snapshot ++ rules_part ∷ []) matched)
    change (copy_tree_if (claude_dest p) (snapshot ++ claude_part ∷ []))
    change (copy_file (github_instructions_path p) (snapshot ++ github_part ∷ []))

  unfoldable pub save : Pack → List Text → List Text → M (Unit {0})
  unfolding save_others
  save p dest snapshot = do
    change (remove_tree snapshot)
    change (mkdir_parents snapshot)
    change (copytree dest (snapshot ++ agents_part ∷ []))
    save_others p snapshot

  module _ (resolve : List Text → Text → List Text) where
    unfoldable pub make_snapshot : Pack → List Text → M (Unit {0})
    unfolding save snapshot_path
    make_snapshot p dest = do
      version ← get (previous_version dest)
      save p dest (snapshot_path resolve p version)

    unfoldable pub snapshot_if_present : Pack → List Text → M (Unit {0})
    unfolding make_snapshot
    snapshot_if_present p dest = do
      present ← get (λ fs. exists dest fs && exists (manifest_path dest) fs)
      if present then make_snapshot p dest else pure tt

  -- The rules' files of the snapshot, under `if rules_snap.exists()`.
  unfoldable pub restore_cursor_rules : Pack → List Text → M (Unit {0})
  unfolding restore_rules
  restore_cursor_rules p rules = do
    present ← get (exists rules)
    if present
        then (do
          matched ← lift (invariant_skill_dirs yaml dirs p.pack_id)
          change (restore_rules rules matched))
        else pure tt

  -- `_restore_snapshot`, and what it does behind the copy to `dest`.
  unfoldable pub restore_others : Pack → List Text → M (Unit {0})
  unfolding replace_tree restore_cursor_rules restore_instructions
  restore_others p latest = do
    restore_cursor_rules p (latest ++ rules_part ∷ [])
    change (replace_tree (latest ++ claude_part ∷ []) (claude_dest p))
    change (restore_instructions (latest ++ github_part ∷ []) (github_instructions_path p))

  unfoldable pub restore_snapshot : Pack → List Text → List Text → M (Unit {0})
  unfolding restore_agents restore_others
  restore_snapshot p latest dest = do
    change (remove_tree dest)
    change (restore_agents latest dest)
    restore_others p latest

  abbrev pub restore_latest : Pack → List Text → M (List Text)
  restore_latest p [] = lift (raised (no_snapshots (versions_root p)))
  restore_latest p (n ∷ names) = do
    restore_snapshot p (versions_root p ++ latest_of (n ∷ names) ∷ []) (dest_root p)
    pure (dest_root p)

  -- `rollback`, of the pack that is loaded.
  unfoldable pub rollback_pack : Pack → M (List Text)
  unfolding restore_snapshot
  rollback_pack p = do
    present ← get (exists (versions_root p))
    names ← get (subdirs (versions_root p))
    if present then restore_latest p names else lift (raised (no_snapshots (versions_root p)))
