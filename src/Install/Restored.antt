-- ===== src/Install/Restored.antt =====
-- What a rollback of scripts/install.py takes from a snapshot.
use deslop.Prelude.{
  Bool, true, List, [], ◌∷◌, ◌++◌, Text, codes, none, lookup, mem, list_eq, nat_eq, list_beq, ◌≡◌,
  sym, ap, refl, ◌∙◌, Bool-cases, inl, inr,
}
use deslop.Errors.{Result, ok, raised}
use deslop.Texts.Order.{text_leb, last_sorted, mem-nil}
use deslop.Packs.{Pack}
use deslop.Packs.Skills.{Yaml, SkillDir, invariant_skill_dirs}
use deslop.Install.Actions.{◌>>=◌, pure, lift, change, get, and_then}
use deslop.Install.Files.{FileTree, is_some, exists, is_dir, remove_tree, subdirs}
use deslop.Install.Copies.{mem-subdirs, fresh_copy, lookup-removed_tree}
use deslop.Install.Paths.{lookup-remove_tree, unequal}
use deslop.Install.Frames.{areas_apart, in_area, in_area-Clear}
use deslop.Install.Places.{pack_place, dest_root, versions_root, version_place, part_of}
use deslop.Install.Snapshot.{
  restore_snapshot, restore_others, restore_agents, restore_cursor_rules, restore_latest,
  rollback_pack, latest_of, agents_part, rules_part,
}
use deslop.Install.Unsaved.{Kept, Leaves-restore_others}

-- The snapshot that a rollback takes is the one of a version, where no other is greater.
latest_version :
    (d : List Text) (v : Text) (fs : FileTree)
    → is_dir (d ++ v ∷ []) fs ≡ true
    → ((n : Text) → is_dir (d ++ n ∷ []) fs ≡ true → text_leb n v ≡ true)
    → latest_of (subdirs d fs) ≡ v
unfolding latest_of
latest_version d v fs h top =
    last_sorted [] v (subdirs d fs) (mem-subdirs d v fs ∙ h)
      (λ n m. top n (sym (mem-subdirs d n fs) ∙ m))

module _ (yaml : Yaml) (dirs : List SkillDir) (p : Pack) where
  -- A rollback restores what the snapshot has of the skills, and ends well.
  restore_run :
      (fs : FileTree) (latest : List Text)
      → restore_snapshot yaml dirs p latest (dest_root p) fs
        ≡ restore_others yaml dirs p latest
            (restore_agents latest (dest_root p) (remove_tree (dest_root p) fs))
  unfolding restore_snapshot ◌>>=◌ change
  restore_run fs latest = refl

  restore_ends :
      (fs : FileTree) (latest : List Text) (ss : List SkillDir)
      → invariant_skill_dirs yaml dirs p.pack_id ≡ ok ss
      → (restore_others yaml dirs p latest fs).1 ≡ ok tt
  unfolding restore_others restore_cursor_rules ◌>>=◌ change lift get pure
  restore_ends fs latest ss h = elim (Bool-cases (exists (latest ++ rules_part ∷ []) fs)) [
    | inl e ↦ rw (e, h) refl
    | inr e ↦ rw e refl
  ]

  skills : List Text → Bool
  skills = in_area (codes ".agents")

  skills-Kept : Kept skills
  unfolding skills list_beq
  skills-Kept = record {
    cursor =
        in_area-Clear (codes ".cursor") (codes ".agents")
          (unequal (codes ".cursor") (codes ".agents") refl);
    claude =
        in_area-Clear (codes ".claude") (codes ".agents")
          (unequal (codes ".claude") (codes ".agents") refl);
    github =
        in_area-Clear (codes ".github") (codes ".agents")
          (unequal (codes ".github") (codes ".agents") refl);
  }

  -- A file of a snapshot is not among those that are removed.
  removed_other :
      (fs : FileTree) (v part : Text) (r : List Text)
      → lookup (part_of p v part ++ r) (remove_tree (dest_root p) fs)
        ≡ lookup (part_of p v part ++ r) fs
  unfolding list_beq
  removed_other fs v part r =
      lookup-remove_tree (dest_root p) (part_of p v part ++ r) fs
        (areas_apart (codes ".agents") (codes ".stopthatslop") (pack_place p)
          (version_place p (v ∷ part ∷ r))
          (unequal (codes ".agents") (codes ".stopthatslop") refl)).0

  pub restored_skills :
      (fs : FileTree) (v : Text) (r : List Text)
      → exists (dest_root p) fs ≡ true
      → exists (part_of p v agents_part) fs ≡ true
      → lookup
          (dest_root p ++ r)
          (restore_snapshot yaml dirs p (versions_root p ++ v ∷ []) (dest_root p) fs).0
        ≡ lookup (part_of p v agents_part ++ r) fs
  unfolding restore_agents skills list_beq
  restored_skills fs v r here saved = rw (restore_run fs (versions_root p ++ v ∷ [])) (
      (Leaves-restore_others skills skills-Kept yaml dirs p (versions_root p ++ v ∷ [])).keeps _
        (dest_root p ++ r) refl
      ∙ rw (ap is_some (removed_other fs v agents_part []) ∙ saved) (
          fresh_copy (part_of p v agents_part) (dest_root p) r (remove_tree (dest_root p) fs)
            (ap is_some (removed_other fs v agents_part []) ∙ saved) free)
      ∙ removed_other fs v agents_part r)
    where
      free :
          (a : Text) (x : List Text)
          → lookup (dest_root p ++ a ∷ x) (remove_tree (dest_root p) fs) ≡ none
      free a x = lookup-removed_tree (dest_root p) (a ∷ x) fs here

  -- The end of a rollback, and what it restores.
  pub rollback_result :
      (fs : FileTree) (v : Text) (ss : List SkillDir)
      → exists (versions_root p) fs ≡ true
      → is_dir (versions_root p ++ v ∷ []) fs ≡ true
      → ((n : Text) → is_dir (versions_root p ++ n ∷ []) fs ≡ true → text_leb n v ≡ true)
      → invariant_skill_dirs yaml dirs p.pack_id ≡ ok ss
      → (rollback_pack yaml dirs p fs).1 ≡ ok (dest_root p)
        × ((rollback_pack yaml dirs p fs).0
            ≡ (restore_snapshot yaml dirs p (versions_root p ++ v ∷ []) (dest_root p) fs).0)
  unfolding rollback_pack ◌>>=◌ get pure
  rollback_result fs v ss root here top known = rw root (
      by_case (subdirs (versions_root p) fs) (mem-subdirs (versions_root p) v fs ∙ here)
        (latest_version (versions_root p) v fs here top))
    where
      end : (restore_snapshot yaml dirs p (versions_root p ++ v ∷ []) (dest_root p) fs).1 ≡ ok tt
      end =
          rw (restore_run fs (versions_root p ++ v ∷ []))
            (restore_ends _ (versions_root p ++ v ∷ []) ss known)

      finish :
          (o : FileTree × Result (Unit {0}))
          → o.1 ≡ ok tt
          → (and_then (λ _. pure (dest_root p)) o).1 ≡ ok (dest_root p)
            × ((and_then (λ _. pure (dest_root p)) o).0 ≡ o.0)
      finish (t, raised e) h = cc
      finish (t, ok u) h = (refl, refl)

      by_case :
          (names : List Text)
          → mem v names ≡ true
          → latest_of names ≡ v
          → (restore_latest yaml dirs p names fs).1 ≡ ok (dest_root p)
            × ((restore_latest yaml dirs p names fs).0
                ≡ (restore_snapshot yaml dirs p (versions_root p ++ v ∷ []) (dest_root p) fs).0)
      by_case [] m l = absurd (mem-nil v m)
      by_case (n ∷ names) m l = rw l (finish _ end)
