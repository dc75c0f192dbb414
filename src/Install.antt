-- ===== src/Install.antt =====
-- scripts/install.py: installing a pack into a target directory, with a snapshot of what was there, and
-- rolling it back. What is printed is left out.
pub mod Actions
pub mod Files
pub mod Paths
pub mod Copies
pub mod Frames
pub mod Untouched
pub mod Unsaved
pub mod Outside
pub mod Found
pub mod Saved
pub mod Restored
pub mod Trees
pub mod Refusal
pub mod Replaced
pub mod Roundtrip
pub mod Places
pub mod Pointer
pub mod Emit
pub mod Snapshot
pub mod Versions
use deslop.Prelude.{
  ℕ, Bool, true, false, List, [], ◌∷◌, ◌++◌, Text, codes, keep, split, if◌then◌else◌, nat_eq,
  list_eq, not, mem,
}
use deslop.Errors.{Result, ok, raised, refused}
use deslop.Packs.{Pack}
use deslop.Packs.Load.{load_pack_by_id}
use deslop.Packs.Frameworks.{collision_hits}
use deslop.Packs.Skills.{Yaml, SkillDir}
use deslop.Install.Actions.{M, ◌>>=◌, ◌>>◌, pure, lift, change, get}
use deslop.Install.Files.{FileTree, exists, is_dir, remove_tree, copytree}
use deslop.Install.Places.{dest_root, claude_dest}
use deslop.Install.Pointer.{maybe_write_agents_md}
use deslop.Install.Emit.{copy_pack, write_manifest, emit_cursor_rules, emit_github_instructions}
use deslop.Install.Snapshot.{snapshot_if_present, rollback_pack}

-- The arguments of the command line, and what `install` returns.
pub record Args : Type 0 where
  pub pack : Text
  pub force : Bool
  pub write_agents_md : Bool
  pub rollback : Bool

pub record Installed : Type 0 where
  pub written : List (List Text)
  pub refuse : List Text

-- `(target / marker).exists()`
abbrev pub marker_exists : FileTree → Text → Bool
marker_exists fs marker = exists (split b'/' marker) fs

-- The repository's own packs and skills, PyYAML, and the time.
module _ (yaml : Yaml) (packs : List Pack) (dirs : List SkillDir) (now : Text) where
  -- The part for Claude, and the one for GitHub.
  unfoldable pub copy_to_claude : Pack → FileTree → FileTree
  unfolding copytree remove_tree
  copy_to_claude p fs = copytree (dest_root p) (claude_dest p) (remove_tree (claude_dest p) fs)

  unfoldable pub install_claude : Pack → M (List (List Text))
  unfolding copy_to_claude
  install_claude p = do
    present ← get (is_dir (codes ".claude" ∷ []))
    if present
        then (do change (copy_to_claude p); pure ((claude_dest p ++ codes "SKILL.md" ∷ []) ∷ []))
        else pure []

  unfoldable pub install_github : Pack → M (List (List Text))
  unfolding emit_github_instructions
  install_github p = do
    present ← get (is_dir (codes ".github" ∷ []))
    if present then emit_github_instructions yaml dirs p else pure []

  -- What follows `_copy_pack`, and what follows the snapshot.
  unfoldable pub install_rest : Pack → Bool → M (List (List Text))
  unfolding write_manifest emit_cursor_rules install_claude install_github maybe_write_agents_md
  install_rest p write_agents_md = do
    manifest ← write_manifest yaml dirs now (dest_root p) p
    rules ← emit_cursor_rules yaml dirs p
    claude ← install_claude p
    github ← install_github p
    agents ← maybe_write_agents_md write_agents_md
    pure (manifest ∷ (rules ++ (claude ++ (github ++ agents))))

  unfoldable pub replace_pack : Pack → Bool → M (List (List Text))
  unfolding copy_pack install_rest remove_tree
  replace_pack p write_agents_md = do
    change (remove_tree (dest_root p))
    skills ← copy_pack yaml dirs (dest_root p) p
    rest ← install_rest p write_agents_md
    pure (skills ++ rest)

  -- The refusal. Its exception stands for the report that is printed and the `SystemExit` behind it,
  -- whose message is fixed: it carries the hits that the report lists.
  abbrev pub refused_by : List Text → Bool → Result (Unit {0})
  refused_by [] force = ok tt
  refused_by (h ∷ hits) force = if force then ok tt else raised (refused (h ∷ hits))

  unfoldable pub rollback : Text → M (List Text)
  rollback pack = do p ← lift (load_pack_by_id packs pack); rollback_pack yaml dirs p

  -- The operating system's resolution of a path that may leave the target.
  module _ (resolve : List Text → Text → List Text) where
    -- `install`, of the pack that is loaded.
    unfoldable pub install_pack : Pack → Bool → Bool → M Installed
    unfolding snapshot_if_present replace_pack
    install_pack p force write_agents_md = do
      refuse ← get (λ fs. collision_hits (marker_exists fs) p true)
      lift (refused_by refuse force)
      snapshot_if_present yaml dirs resolve p (dest_root p)
      written ← replace_pack p write_agents_md
      pure (record { written = written; refuse = refuse })

    unfoldable pub install : Text → Bool → Bool → M Installed
    unfolding install_pack
    install pack force write_agents_md = do
      p ← lift (load_pack_by_id packs pack)
      install_pack p force write_agents_md

    -- `main`, with the paths that it prints.
    unfoldable pub main : Args → M (List (List Text))
    unfolding install rollback
    main args =
        if args.rollback
        then (rollback args.pack >>= λ restored. pure (restored ∷ []))
        else (install args.pack args.force args.write_agents_md >>= λ done. pure done.written)
