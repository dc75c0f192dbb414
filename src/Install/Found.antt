-- ===== src/Install/Found.antt =====
-- What stands at a path stays there while scripts/install.py changes others.
use deslop.Prelude.{
  false, List, [], ◌∷◌, ◌++◌, Text, Option, none, some, lookup, list_eq, nat_eq, list_beq, ◌≡◌, ◌∙◌,
  Bool-cases, inl, inr,
}
use deslop.Packs.Skills.{SkillDir}
use deslop.Install.Files.{
  Node, dir, FileTree, below, exists, copytree, copy_file, mkdir, mkdir_parents, mkdir_parts,
  copy_entries, copy_entry, copy_node,
}
use deslop.Install.Paths.{lookup-write, not_equal}
use deslop.Install.Places.{mdc_name}
use deslop.Install.Snapshot.{save_rules, copy_tree_if}

-- What stands at a path stays there while other paths are changed, and while directories are made.
module _ (q : List Text) (n : Node) where
  abbrev pub Found : FileTree → Type 0
  Found fs = lookup q fs ≡ some n

  pub mkdir-Found : (d : List Text) (fs : FileTree) → Found fs → Found (mkdir d fs)
  unfolding mkdir
  mkdir-Found d fs h = elim (Bool-cases (exists d fs)) [
    | inl e ↦ rw e h
    | inr e ↦ rw e (lookup-write d q dir fs (not_equal (λ s. absurd (cc (s, e, h)))) ∙ h)
  ]

  mkdir_parts-Found :
      (made p : List Text) (fs : FileTree) → Found fs → Found (mkdir_parts made p fs)
  unfolding mkdir_parts
  mkdir_parts-Found made [] fs h = h
  mkdir_parts-Found made (a ∷ p) fs h =
      mkdir_parts-Found (made ++ a ∷ []) p _ (mkdir-Found (made ++ a ∷ []) fs h)

  pub mkdir_parents-Found : (d : List Text) (fs : FileTree) → Found fs → Found (mkdir_parents d fs)
  unfolding mkdir_parents
  mkdir_parents-Found d fs h = mkdir_parts-Found [] d fs h

  -- No path from a place is the path.
  abbrev pub Apart : List Text → Type 0
  Apart d = (x : List Text) → list_beq (d ++ x) q ≡ false

  copy_entries-Found :
      (src dst : List Text) (es fs : FileTree)
      → Apart dst
      → Found fs
      → Found (copy_entries src dst es fs)
  unfolding copy_entries
  copy_entries-Found src dst [] fs off h = h
  copy_entries-Found src dst ((p, m) ∷ es) fs off h =
      by_case (below src p) (copy_entries src dst es fs) (copy_entries-Found src dst es fs off h)
    where
      by_case : (o : Option (List Text)) (t : FileTree) → Found t → Found (copy_entry dst o m t)
      by_case none t g = g
      by_case (some r) t g = lookup-write (dst ++ r) q m t (off r) ∙ g

  pub copytree-Found :
      (src dst : List Text) (fs : FileTree) → Apart dst → Found fs → Found (copytree src dst fs)
  unfolding copytree
  copytree-Found src dst fs off h =
      copy_entries-Found src dst fs (mkdir_parents dst fs) off (mkdir_parents-Found dst fs h)

  pub copy_file-Found :
      (src dst : List Text) (fs : FileTree)
      → list_beq dst q ≡ false
      → Found fs
      → Found (copy_file src dst fs)
  unfolding copy_file
  copy_file-Found src dst fs off h = by_case (lookup src fs)
    where
      by_case : (o : Option Node) → Found (copy_node dst o fs)
      by_case none = h
      by_case (some m) = lookup-write dst q m fs off ∙ h

  pub save_rules-Found :
      (rules : List Text) (ss : List SkillDir) (fs : FileTree)
      → Apart rules
      → Found fs
      → Found (save_rules rules ss fs)
  unfolding save_rules
  save_rules-Found rules [] fs off h = h
  save_rules-Found rules (s ∷ ss) fs off h =
      save_rules-Found rules ss _ off (copy_file-Found _ _ fs (off (mdc_name s.name ∷ [])) h)

  pub copy_tree_if-Found :
      (src dst : List Text) (fs : FileTree) → Apart dst → Found fs → Found (copy_tree_if src dst fs)
  unfolding copy_tree_if
  copy_tree_if-Found src dst fs off h = elim (Bool-cases (exists src fs)) [
    | inl e ↦ rw e (copytree-Found src dst fs off h)
    | inr e ↦ rw e h
  ]
