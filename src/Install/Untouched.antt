-- ===== src/Install/Untouched.antt =====
-- The files that the parts of scripts/install.py leave alone.
use deslop.Prelude.{
  Bool, true, false, List, [], ◌∷◌, ◌++◌, Text, codes, Dict, list_eq, nat_eq, ◌≡◌, refl, ◌∙◌,
  Bool-cases, Option-cases, inl, inr,
}
use deslop.Packs.{Pack}
use deslop.Packs.Skills.{Yaml, SkillDir}
use deslop.Install.Actions.{
  ◌>>=◌, pure, change, Leaves, Keeps, Leaves-and_then, Leaves-pure, after_change, after_lift,
  after_test,
}
use deslop.Install.Files.{FileTree, mkdir_parents, remove_tree, read_text}
use deslop.Install.Frames.{
  Off, Clear, Off-Clear, Keeps-write, Keeps-mkdir, Keeps-remove_tree, Keeps-mkdir_parents,
  Keeps-copytree,
}
use deslop.Install.Places.{pack_place, dest_root}
use deslop.Install.Pointer.{add_pointer, maybe_write_agents_md, agents_md, has_pointer}
use deslop.Install.Emit.{
  copy_references, copy_skills, copy_pack, write_manifest, emit_rules, emit_cursor_rules,
  emit_github_instructions,
}
use deslop.Install.{install_claude, install_github, install_rest, replace_pack, copy_to_claude}

-- Sets of paths that the parts of an installation leave alone.
pub record Spared (r : List Text → Bool) (p : Pack) : Type 0 where
  pub inside : (a : Text) (d : List Text) → Off r (dest_root p ++ a ∷ d)
  pub cursor : Clear r (codes ".cursor")
  pub claude : Clear r (codes ".claude")
  pub github : Clear r (codes ".github")
  pub agents : Clear r (codes "AGENTS.md")

module _ (r : List Text → Bool) (p : Pack) (s : Spared r p) (yaml : Yaml)
    (dirs : List SkillDir) where
  Leaves-copy_references :
      (a : Text) (ss : List SkillDir)
      → Leaves r (copy_references yaml dirs (dest_root p ++ a ∷ []) ss)
  unfolding copy_references
  Leaves-copy_references a [] = Leaves-pure r _
  Leaves-copy_references a (k ∷ ss) = elim (Option-cases k.skill_md) [
    | inl gone ↦ rw gone (Leaves-copy_references a ss)
    | inr (t, is) ↦ rw is (
        after_change r _ _ (Keeps-write r _ t (s.inside a ((k.name ++ codes ".md") ∷ [])))
          (Leaves-and_then r _ _ (Leaves-copy_references a ss) (λ rest. Leaves-pure r _)))
  ]

  Leaves-copy_skills : Leaves r (copy_skills yaml dirs (dest_root p) p)
  unfolding copy_skills
  Leaves-copy_skills = after_lift r _ _ (λ index. after_lift r _ _ (λ text.
      after_change r _ _ (Keeps-write r _ text (s.inside _ [])) (
        after_change r _ _ (Keeps-remove_tree r _ (s.inside _ [])) (
          after_change r _ _ (Keeps-mkdir r _ (s.inside _ [])) (
            after_lift r _ _ (λ matched.
              Leaves-and_then r _ _ (Leaves-copy_references _ matched)
                (λ copied. Leaves-pure r _)))))))

  Leaves-write_manifest : (now : Text) → Leaves r (write_manifest yaml dirs now (dest_root p) p)
  unfolding write_manifest
  Leaves-write_manifest now =
      after_lift r _ _
        (λ version. after_change r _ _ (Keeps-write r _ _ (s.inside _ [])) (Leaves-pure r _))

  Leaves-emit_rules :
      (globs : Dict Text Text) (ss : List SkillDir) → Leaves r (emit_rules yaml dirs globs ss)
  unfolding emit_rules
  Leaves-emit_rules globs [] = Leaves-pure r _
  Leaves-emit_rules globs (k ∷ ss) = after_lift r _ _ (λ glob. after_lift r _ _ (λ frontmatter.
      after_lift r _ _ (λ body.
        after_change r _ _ (Keeps-write r _ _ (Off-Clear r _ s.cursor _))
          (Leaves-and_then r _ _ (Leaves-emit_rules globs ss) (λ rest. Leaves-pure r _)))))

  Leaves-emit_cursor_rules : Leaves r (emit_cursor_rules yaml dirs p)
  unfolding emit_cursor_rules
  Leaves-emit_cursor_rules = after_lift r _ _ (λ globs.
      after_change r _ _ (Keeps-mkdir_parents r _ s.cursor _)
        (after_lift r _ _ (λ matched. Leaves-emit_rules globs matched)))

  Keeps-copy_to_claude :
      (packs : List Pack) (now : Text) → Keeps r (copy_to_claude yaml packs dirs now p)
  unfolding copy_to_claude
  Keeps-copy_to_claude packs now fs q h =
      Keeps-copytree r _ s.claude (dest_root p) (pack_place p) _ q h
      ∙ Keeps-remove_tree r _ (Off-Clear r _ s.claude (pack_place p)) fs q h

  Leaves-install_claude :
      (packs : List Pack) (now : Text) → Leaves r (install_claude yaml packs dirs now p)
  unfolding install_claude
  Leaves-install_claude packs now =
      after_test r _ _ _ (after_change r _ _ (Keeps-copy_to_claude packs now) (Leaves-pure r _))
        (Leaves-pure r _)

  Leaves-install_github :
      (packs : List Pack) (now : Text) → Leaves r (install_github yaml packs dirs now p)
  unfolding install_github emit_github_instructions
  Leaves-install_github packs now =
      after_test r _ _ _
        (after_lift r _ _ (λ globs. after_lift r _ _ (λ index. after_lift r _ _ (λ body.
          after_change r _ _ (Keeps-mkdir_parents r _ s.github _) (
            after_change r _ _ (Keeps-write r _ _ (Off-Clear r _ s.github _)) (Leaves-pure r _))))))
        (Leaves-pure r _)

  Leaves-maybe_write_agents_md : (write : Bool) → Leaves r (maybe_write_agents_md write)
  unfolding maybe_write_agents_md add_pointer
  Leaves-maybe_write_agents_md false = Leaves-pure r _
  Leaves-maybe_write_agents_md true =
      after_change r _ _
        (λ fs q h. elim (Bool-cases (has_pointer (read_text agents_md fs))) [
          | inl found ↦ rw found refl
          | inr absent ↦ rw absent (Keeps-write r _ _ (Off-Clear r _ s.agents []) fs q h)
        ])
        (Leaves-pure r _)

  Leaves-install_rest :
      (packs : List Pack) (now : Text) (write : Bool)
      → Leaves r (install_rest yaml packs dirs now p write)
  unfolding install_rest
  Leaves-install_rest packs now write =
      Leaves-and_then r _ _ (Leaves-write_manifest now) (λ manifest.
        Leaves-and_then r _ _ Leaves-emit_cursor_rules (λ rules.
          Leaves-and_then r _ _ (Leaves-install_claude packs now) (λ claude.
            Leaves-and_then r _ _ (Leaves-install_github packs now) (λ github.
              Leaves-and_then r _ _ (Leaves-maybe_write_agents_md write)
                (λ agents. Leaves-pure r _)))))

  -- What follows the removal of the skills and their directory's making, which are the first changes.
  pub replace_run :
      (packs : List Pack) (now : Text) (write : Bool) (fs : FileTree)
      → replace_pack yaml packs dirs now p write fs
        ≡ (copy_skills yaml dirs (dest_root p) p >>= λ skills.
              install_rest yaml packs dirs now p write >>= λ rest. pure (skills ++ rest))
            (mkdir_parents (dest_root p) (remove_tree (dest_root p) fs))
  unfolding replace_pack copy_pack ◌>>=◌ change
  replace_run packs now write fs = refl

  pub Leaves-replacement :
      (packs : List Pack) (now : Text) (write : Bool)
      → Leaves r (
          copy_skills yaml dirs (dest_root p) p >>= λ skills.
          install_rest yaml packs dirs now p write >>= λ rest. pure (skills ++ rest))
  Leaves-replacement packs now write = Leaves-and_then r _ _ Leaves-copy_skills (λ skills.
      Leaves-and_then r _ _ (Leaves-install_rest packs now write) (λ rest. Leaves-pure r _))

  pub Leaves-replace_pack :
      (skills : Clear r (codes ".agents")) (packs : List Pack) (now : Text) (write : Bool)
      → Leaves r (replace_pack yaml packs dirs now p write)
  Leaves-replace_pack skills packs now write = record {
    keeps = λ fs q h. rw (replace_run packs now write fs) (
        (Leaves-replacement packs now write).keeps _ q h
        ∙ Keeps-mkdir_parents r _ skills (pack_place p) _ q h
        ∙ Keeps-remove_tree r _ (Off-Clear r _ skills (pack_place p)) fs q h);
  }
