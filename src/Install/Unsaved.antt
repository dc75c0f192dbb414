-- ===== src/Install/Unsaved.antt =====
-- The files that a snapshot and a rollback of scripts/install.py leave alone.
use deslop.Prelude.{
  Bool, true, ◌&&◌, lookup, ◌≡◌, ap, arith, List, [], ◌∷◌, ◌++◌, Text, codes, list_eq, nat_eq, refl,
  ◌∙◌, Bool-cases, inl, inr,
}
use deslop.Errors.{raised, no_snapshots}
use deslop.Packs.{Pack}
use deslop.Packs.Skills.{Yaml, SkillDir}
use deslop.Install.Actions.{
  pure, get, ◌>>=◌, Leaves, Keeps, Leaves-and_then, Leaves-pure, Leaves-change, Leaves-lift,
  Leaves-get, after_change, after_lift, after_test, Leaves-if,
}
use deslop.Install.Files.{FileTree, exists}
use deslop.Install.Frames.{
  Clear, Off-Clear, Keeps-mkdir, Keeps-remove_tree, Keeps-copy_file, Keeps-mkdir_parents,
  Keeps-copytree, Away,
}
use deslop.Install.Copies.{lookup-copytree_off}
use deslop.Install.Paths.{lookup-mkdir_parents}
use deslop.Install.Places.{
  is_part, manifest_path, pack_place, dest_root, versions_root, version_place, part_of, mdc_path,
  github_instructions_path,
}
use deslop.Install.Versions.{snapshot_run}
use deslop.Install.Snapshot.{
  save_rules, copy_tree_if, restore_rule, restore_rules, replace_tree, restore_instructions,
  previous_version, snapshot_if_present, restore_cursor_rules, restore_agents, restore_snapshot,
  restore_latest, rollback_pack, latest_of, rules_part, claude_part, agents_part, restore_others,
  save, save_others, github_part,
}

and_right : (a b : Bool) → (a && b) ≡ true → b ≡ true
and_right a b h = ground arith

module _ (r : List Text → Bool) (p : Pack) (v : Text) where
  Keeps-save_rules :
      (ss : List SkillDir)
      → Away r (part_of p v rules_part)
      → Keeps r (save_rules (part_of p v rules_part) ss)
  unfolding save_rules
  Keeps-save_rules [] off fs q h = refl
  Keeps-save_rules (s ∷ ss) off fs q h =
      Keeps-save_rules ss off _ q h ∙ Keeps-copy_file r _ _ (λ q h. (off (_ ∷ []) q h).0) fs q h

  Keeps-copy_tree_if :
      (src : List Text) (part : Text)
      → Away r (part_of p v part)
      → Keeps r (copy_tree_if src (part_of p v part))
  unfolding copy_tree_if
  Keeps-copy_tree_if src part off fs q h = elim (Bool-cases (exists src fs)) [
    | inl e ↦ rw e (lookup-copytree_off src (part_of p v part) q fs (off [] q h).0 (off [] q h).1)
    | inr e ↦ rw e refl
  ]

  module _ (yaml : Yaml) (dirs : List SkillDir) where
    -- What a snapshot has besides the skills.
    pub Leaves-save_others :
        Away r (part_of p v rules_part)
        → Away r (part_of p v claude_part)
        → Away r (part_of p v github_part)
        → Leaves r (save_others yaml dirs p (versions_root p ++ v ∷ []))
    unfolding save_others
    Leaves-save_others rules claude github =
        after_change r _ _ (Keeps-mkdir r _ (λ q h. (rules [] q h).0)) (
          after_lift r _ _ (λ matched. after_change r _ _ (Keeps-save_rules matched rules) (
            after_change r _ _ (Keeps-copy_tree_if _ claude_part claude)
              (Leaves-change r _ (Keeps-copy_file r _ _ (λ q h. (github [] q h).0))))))

    pub Leaves-save :
        (dest : List Text)
        → Away r (versions_root p ++ v ∷ [])
        → Leaves r (save yaml dirs p dest (versions_root p ++ v ∷ []))
    unfolding save
    Leaves-save dest off = after_change r _ _ (Keeps-remove_tree r _ (λ q h. (off [] q h).0)) (
        after_change r _ _ (λ fs q h. lookup-mkdir_parents _ q fs (off [] q h).1)
          (after_change r _ _
            (λ fs q h.
              lookup-copytree_off dest _ q fs (off (agents_part ∷ []) q h).0
                (off (agents_part ∷ []) q h).1)
            (Leaves-save_others (λ x. off (rules_part ∷ x)) (λ x. off (claude_part ∷ x))
              (λ x. off (github_part ∷ x)))))

module _ (r : List Text → Bool) (stop : Clear r (codes ".stopthatslop")) where
  module _ (yaml : Yaml) (dirs : List SkillDir) (resolve : List Text → Text → List Text)
      (p : Pack) where
    -- The snapshot of an installed pack whose version is one part of a path, and of none.
    pub snapshot_if_present-keeps :
        (fs : FileTree) (q : List Text)
        → r q ≡ true
        → (exists (manifest_path (dest_root p)) fs ≡ true
            → is_part (previous_version yaml dirs (dest_root p) fs) ≡ true)
        → lookup q (snapshot_if_present yaml dirs resolve p (dest_root p) fs).0 ≡ lookup q fs
    unfolding snapshot_if_present ◌>>=◌ get pure
    snapshot_if_present-keeps fs q h part = elim (Bool-cases present) [
      | inl e ↦
          ap (λ o. lookup q o.0) (snapshot_run yaml dirs resolve p fs e (part (and_right _ _ e)))
          ∙ (Leaves-save r p v yaml dirs (dest_root p) (λ x. stop (version_place p (v ∷ x)))).keeps
              fs q h
      | inr e ↦ rw e refl
    ]
      where
        present : Bool
        present = exists (dest_root p) fs && exists (manifest_path (dest_root p)) fs

        v : Text
        v = previous_version yaml dirs (dest_root p) fs

-- Sets of paths that a rollback leaves alone behind the copy of the skills.
pub record Kept (r : List Text → Bool) : Type 0 where
  pub cursor : Clear r (codes ".cursor")
  pub claude : Clear r (codes ".claude")
  pub github : Clear r (codes ".github")

module _ (r : List Text → Bool) (k : Kept r) where
  Keeps-restore_rule : (src : List Text) (n : Text) → Keeps r (restore_rule src (mdc_path n))
  unfolding restore_rule
  Keeps-restore_rule src n fs q h = elim (Bool-cases (exists src fs)) [
    | inl e ↦ rw e (
        Keeps-copy_file r src _ (Off-Clear r _ k.cursor _) _ q h
        ∙ Keeps-mkdir_parents r _ k.cursor (codes "rules" ∷ []) fs q h)
    | inr e ↦ rw e refl
  ]

  Keeps-restore_rules : (rules : List Text) (ss : List SkillDir) → Keeps r (restore_rules rules ss)
  unfolding restore_rules
  Keeps-restore_rules rules [] fs q h = refl
  Keeps-restore_rules rules (s ∷ ss) fs q h =
      Keeps-restore_rules rules ss _ q h ∙ Keeps-restore_rule _ s.name fs q h

  Keeps-replace_tree :
      (src : List Text) (a : Text) (d : List Text) → Clear r a → Keeps r (replace_tree src (a ∷ d))
  unfolding replace_tree
  Keeps-replace_tree src a d c fs q h = elim (Bool-cases (exists src fs)) [
    | inl e ↦
        rw e (Keeps-copytree r a c src d _ q h ∙ Keeps-remove_tree r _ (Off-Clear r a c d) fs q h)
    | inr e ↦ rw e refl
  ]

  Keeps-restore_instructions :
      (src : List Text) (p : Pack) → Keeps r (restore_instructions src (github_instructions_path p))
  unfolding restore_instructions
  Keeps-restore_instructions src p fs q h = elim (Bool-cases (exists src fs)) [
    | inl e ↦ rw e (
        Keeps-copy_file r src _ (Off-Clear r _ k.github _) _ q h
        ∙ Keeps-mkdir_parents r _ k.github (codes "instructions" ∷ []) fs q h)
    | inr e ↦ rw e refl
  ]

  module _ (yaml : Yaml) (dirs : List SkillDir) (p : Pack) where
    Leaves-restore_cursor_rules :
        (rules : List Text) → Leaves r (restore_cursor_rules yaml dirs p rules)
    unfolding restore_cursor_rules
    Leaves-restore_cursor_rules rules =
        after_test r _ _ _
          (after_lift r _ _ (λ matched. Leaves-change r _ (Keeps-restore_rules rules matched)))
          (Leaves-pure r _)

    -- What follows the copy of the skills.
    pub Leaves-restore_others : (latest : List Text) → Leaves r (restore_others yaml dirs p latest)
    unfolding restore_others
    Leaves-restore_others latest = Leaves-and_then r _ _ (Leaves-restore_cursor_rules _) (λ _.
        after_change r _ _ (Keeps-replace_tree _ _ (pack_place p) k.claude)
          (Leaves-change r _ (Keeps-restore_instructions _ p)))

module _ (r : List Text → Bool) (k : Kept r) (skills : Clear r (codes ".agents")) where
  Keeps-restore_agents :
      (latest : List Text) (p : Pack) → Keeps r (restore_agents latest (dest_root p))
  unfolding restore_agents
  Keeps-restore_agents latest p fs q h =
      elim (Bool-cases (exists (latest ++ agents_part ∷ []) fs)) [
        | inl e ↦ rw e (Keeps-copytree r _ skills _ (pack_place p) fs q h)
        | inr e ↦ rw e (Keeps-copytree r _ skills latest (pack_place p) fs q h)
      ]

  module _ (yaml : Yaml) (dirs : List SkillDir) (p : Pack) where
    Leaves-restore_snapshot :
        (latest : List Text) → Leaves r (restore_snapshot yaml dirs p latest (dest_root p))
    unfolding restore_snapshot
    Leaves-restore_snapshot latest =
        after_change r _ _ (Keeps-remove_tree r _ (Off-Clear r _ skills (pack_place p))) (
          after_change r _ _ (Keeps-restore_agents latest p)
            (Leaves-restore_others r k yaml dirs p latest))

    pub Leaves-rollback_pack : Leaves r (rollback_pack yaml dirs p)
    unfolding rollback_pack
    Leaves-rollback_pack = Leaves-and_then r _ _ (Leaves-get r _) (λ present.
        Leaves-and_then r _ _ (Leaves-get r _)
          (λ names. Leaves-if r present _ _ (from names) (Leaves-lift r _)))
      where
        from : (names : List Text) → Leaves r (restore_latest yaml dirs p names)
        from [] = Leaves-lift r (raised (no_snapshots (versions_root p)))
        from (n ∷ names) =
            Leaves-and_then r
              (restore_snapshot yaml dirs p (versions_root p ++ latest_of (n ∷ names) ∷ [])
                (dest_root p))
              (λ _. pure (dest_root p))
              (Leaves-restore_snapshot (versions_root p ++ latest_of (n ∷ names) ∷ []))
              (λ _. Leaves-pure r (dest_root p))
