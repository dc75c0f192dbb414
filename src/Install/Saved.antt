-- ===== src/Install/Saved.antt =====
-- What the snapshot that scripts/install.py makes holds.
use deslop.Prelude.{
  Bool, true, false, List, [], ◌∷◌, ◌++◌, Text, codes, Option, none, some, lookup, list_eq, nat_eq,
  list_beq, list_beq_iff, ◌≡◌, ◌≢◌, sym, ap, refl, ◌∙◌, beq_refl,
}
use deslop.Packs.{Pack}
use deslop.Packs.Skills.{Yaml, SkillDir}
use deslop.Install.Actions.{
  ◌>>=◌, change, Preserves, Preserves-and_then, Preserves-change, Preserves-lift,
}
use deslop.Install.Files.{
  Node, dir, FileTree, is_under, exists, is_dir, remove_tree, copytree, mkdir, mkdir_parents,
  mkdir_parts, is_some, is_dir_node,
}
use deslop.Install.Copies.{IsTree, lookup-removed, fresh_copy}
use deslop.Install.Paths.{
  made_dir, lookup-mkdir_parents, below-append, deeper, unequal, beq_append, below_both,
  exists-mkdir_parents,
}
use deslop.Install.Frames.{
  Clear, Off-Clear, Away, areas_apart, Keeps-mkdir_parents, Keeps-remove_tree, parts_apart, in_area,
  in_area-Clear,
}
use deslop.Install.Found.{
  Found, Apart, mkdir-Found, copytree-Found, save_rules-Found, copy_tree_if-Found, copy_file-Found,
}
use deslop.Install.Places.{dest_root, claude_dest, versions_root, version_place, part_of}
use deslop.Install.Snapshot.{save, save_others, rules_part, claude_part, agents_part, github_part}
use deslop.Install.Unsaved.{Leaves-save_others, Leaves-save}

module _ (yaml : Yaml) (dirs : List SkillDir) (p : Pack) (v : Text) where
  others-Found :
      (q : List Text) (n : Node)
      → ((part : Text) → Apart q n (part_of p v part))
      → Preserves (Found q n) (save_others yaml dirs p (versions_root p ++ v ∷ []))
  unfolding save_others
  others-Found q n off =
      Preserves-and_then _ _ _ (Preserves-change _ _ (λ fs. mkdir-Found q n _ fs)) (λ _.
        Preserves-and_then _ _ _ (Preserves-lift _ _) (λ matched.
          Preserves-and_then _ _ _
            (Preserves-change _ _
              (λ fs. save_rules-Found q n (part_of p v rules_part) matched fs (off rules_part)))
            (λ _.
              Preserves-and_then _ _ _
                (Preserves-change _ _ (λ fs.
                  copy_tree_if-Found q n (claude_dest p) (part_of p v claude_part) fs
                    (off claude_part)))
                (λ _. Preserves-change _ _ (λ fs.
                  copy_file-Found q n _ (part_of p v github_part) fs (off github_part []))))))

  abbrev pub snapshot : List Text
  snapshot = versions_root p ++ v ∷ []

  abbrev cleared : FileTree → FileTree
  cleared fs = mkdir_parents snapshot (remove_tree snapshot fs)

  abbrev with_skills : FileTree → FileTree
  with_skills fs = copytree (dest_root p) (part_of p v agents_part) (cleared fs)

  save_run :
      (fs : FileTree)
      → save yaml dirs p (dest_root p) (versions_root p ++ v ∷ []) fs
        ≡ save_others yaml dirs p (versions_root p ++ v ∷ []) (with_skills fs)
  unfolding save ◌>>=◌ change
  save_run fs = refl

  -- The place of the snapshot is made anew, which leaves what is installed.
  cleared_other :
      (fs : FileTree) (r : List Text)
      → lookup (dest_root p ++ r) (cleared fs) ≡ lookup (dest_root p ++ r) fs
  unfolding list_beq
  cleared_other fs r =
      Keeps-mkdir_parents skills _ apart (version_place p (v ∷ [])) _ (dest_root p ++ r) refl
      ∙ Keeps-remove_tree skills _ (Off-Clear skills _ apart (version_place p (v ∷ []))) fs
          (dest_root p ++ r) refl
    where
      skills : List Text → Bool
      skills = in_area (codes ".agents")

      apart : Clear skills (codes ".stopthatslop")
      apart =
          in_area-Clear (codes ".stopthatslop") (codes ".agents")
            (unequal (codes ".stopthatslop") (codes ".agents") refl)

  cleared_part :
      (fs : FileTree) (a : Text) (x : List Text)
      → IsTree fs
      → lookup (snapshot ++ a ∷ x) (cleared fs) ≡ none
  cleared_part fs a x tree =
      lookup-mkdir_parents snapshot (snapshot ++ a ∷ x) (remove_tree snapshot fs)
        (deeper a x snapshot)
      ∙ lookup-removed snapshot (a ∷ x) fs tree

  -- The skills that were installed are in the snapshot, whatever the rest of it does.
  pub saved_skills :
      (fs : FileTree) (r : List Text)
      → IsTree fs
      → exists (dest_root p) fs ≡ true
      → lookup
          (part_of p v agents_part ++ r)
          (save yaml dirs p (dest_root p) (versions_root p ++ v ∷ []) fs).0
        ≡ lookup (dest_root p ++ r) fs
  unfolding list_beq
  saved_skills fs r tree h = rw (save_run fs) (
      (Leaves-save_others under p v yaml dirs (other rules_part refl) (other claude_part refl)
          (other github_part refl)).keeps
        (with_skills fs) (part_of p v agents_part ++ r)
        (rw (below-append (part_of p v agents_part) r) refl)
      ∙ fresh_copy (dest_root p) (part_of p v agents_part) r (cleared fs)
          (ap is_some (cleared_other fs []) ∙ h) (λ a x. cleared_part fs agents_part (a ∷ x) tree)
      ∙ cleared_other fs r)
    where
      under : List Text → Bool
      under q = is_under (part_of p v agents_part) q

      other : (part : Text) → list_beq agents_part part ≡ false → Away under (part_of p v part)
      other part n = parts_apart snapshot agents_part part (unequal agents_part part n)

  -- A directory that leads to the parts of the snapshot stays.
  saved-Found :
      (q : List Text) (n : Node) (fs : FileTree)
      → ((part : Text) → is_under (part_of p v part) q ≡ false)
      → Found q n (cleared fs)
      → Found q n (save yaml dirs p (dest_root p) (versions_root p ++ v ∷ []) fs).0
  saved-Found q n fs off h = rw (save_run fs) (
      (others-Found q n apart).still (with_skills fs) (
        copytree-Found q n (dest_root p) (part_of p v agents_part) (cleared fs) (apart agents_part)
          h))
    where
      apart : (part : Text) → Apart q n (part_of p v part)
      apart part x = beq_append (part_of p v part) x q (off part)

  pub saved_dir :
      (fs : FileTree)
      → IsTree fs
      → is_dir snapshot (save yaml dirs p (dest_root p) (versions_root p ++ v ∷ []) fs).0 ≡ true
  unfolding mkdir_parents
  saved_dir fs tree = ap is_dir_node (
      saved-Found snapshot dir fs (λ part. deeper part [] snapshot)
        (made_dir [] (codes ".stopthatslop") (version_place p (v ∷ [])) (remove_tree snapshot fs)
          (lookup-removed snapshot [] fs tree)))

  cleared_run :
      (fs : FileTree)
      → cleared fs ≡ mkdir snapshot (mkdir_parents (versions_root p) (remove_tree snapshot fs))
  unfolding mkdir_parents mkdir_parts
  cleared_run fs = refl

  pub saved_root :
      (fs : FileTree)
      → exists (versions_root p) (save yaml dirs p (dest_root p) (versions_root p ++ v ∷ []) fs).0
        ≡ true
  saved_root fs = by_case (lookup (versions_root p) made) refl
    where
      made : FileTree
      made = mkdir_parents (versions_root p) (remove_tree snapshot fs)

      present : exists (versions_root p) made ≡ true
      present =
          exists-mkdir_parents (codes ".stopthatslop") (version_place p [])
            (remove_tree snapshot fs)

      by_case :
          (o : Option Node)
          → lookup (versions_root p) made ≡ o
          → exists
              (versions_root p)
              (save yaml dirs p (dest_root p) (versions_root p ++ v ∷ []) fs).0
            ≡ true
      by_case none e = absurd (cc (e, present))
      by_case (some n) e = ap is_some (
          saved-Found (versions_root p) n fs (λ part. deeper v (part ∷ []) (versions_root p))
            (rw (cleared_run fs) (mkdir-Found (versions_root p) n snapshot made e)))

  -- The other snapshots stay as they are.
  pub saved_others :
      (fs : FileTree) (n : Text)
      → n ≢ v
      → lookup
          (versions_root p ++ n ∷ [])
          (save yaml dirs p (dest_root p) (versions_root p ++ v ∷ []) fs).0
        ≡ lookup (versions_root p ++ n ∷ []) fs
  saved_others fs n d =
      (Leaves-save here p v yaml dirs (dest_root p) away).keeps fs (versions_root p ++ n ∷ [])
        (beq_refl (versions_root p ++ n ∷ []))
    where
      here : List Text → Bool
      here q = list_beq q (versions_root p ++ n ∷ [])

      away : Away here snapshot
      away x q h =
          rw
            (
              (list_beq_iff q (versions_root p ++ n ∷ [])).0 h,
              below_both (versions_root p) (v ∷ x) (n ∷ []),
              below_both (versions_root p) (n ∷ []) (v ∷ x),
            )
            (areas_apart v n x [] (λ e. d (sym e)))
