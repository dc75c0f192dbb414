-- ===== src/Install/Copies.antt =====
-- Where what scripts/install.py copies is found again, and what is in no directory.
use deslop.Prelude.{
  Bool, true, false, List, [], ◌∷◌, ◌++◌, Text, Option, none, some, lookup, if◌then◌else◌, list_eq,
  nat_eq, list_beq, list_beq_iff, ◌≡◌, ◌⊎◌, refl, arith, ◌∙◌, ap, Bool-cases, inl, inr,
  lookup-assign, mem, ◌&&◌, pair_eq, append-nil, Option-cases,
}
use deslop.Install.Files.{
  Node, dir, file, FileTree, below, is_some, is_under, exists, is_dir, is_dir_node, mkdir_parents,
  remove_tree, copy_entries, copytree, names_in, subdirs, copy_entry, onto_names,
}
use deslop.Install.Paths.{
  below-append, append-beq, below-some, beq_append, deeper, lookup-rmtree, lookup-write,
  lookup-mkdir_parents,
}

abbrev or_node : Option Node → Option Node → Option Node
or_node (some n) o = some n
or_node none o = o

-- A copied tree has below its root what the source has, over what was there.
lookup-copy_entries :
    (src dst r : List Text) (es fs : FileTree)
    → lookup (dst ++ r) (copy_entries src dst es fs)
      ≡ or_node (lookup (src ++ r) es) (lookup (dst ++ r) fs)
unfolding lookup copy_entries
lookup-copy_entries src dst r [] fs = refl
lookup-copy_entries src dst r ((p, n) ∷ es) fs = elim (Option-cases (below src p)) [
  | inl out ↦ rw (out, differs out) (lookup-copy_entries src dst r es fs)
  | inr (rest, found) ↦
      rw
        (
          found,
          below-some src p rest found,
          lookup-assign (dst ++ rest) (dst ++ r) n (copy_entries src dst es fs),
          append-beq src rest r,
          append-beq dst rest r,
          lookup-copy_entries src dst r es fs,
        )
        (by_case (list_beq rest r) n _ _)
]
  where
    differs : below src p ≡ none → list_beq p (src ++ r) ≡ false
    differs h = ground (arith, list_beq_iff p (src ++ r), below-append src r)

    by_case :
        (same : Bool) (n : Node) (o o' : Option Node)
        → (if same then some n else or_node o o') ≡ or_node (if same then some n else o) o'
    by_case true n o o' = refl
    by_case false n o o' = refl

pub lookup-copytree :
    (src dst r : List Text) (fs : FileTree)
    → lookup (dst ++ r) (copytree src dst fs)
      ≡ or_node (lookup (src ++ r) fs) (lookup (dst ++ r) (mkdir_parents dst fs))
unfolding copytree
lookup-copytree src dst r fs = lookup-copy_entries src dst r fs (mkdir_parents dst fs)

lookup-copy_entries_off :
    (src dst p : List Text) (es fs : FileTree)
    → is_under dst p ≡ false
    → lookup p (copy_entries src dst es fs) ≡ lookup p fs
unfolding copy_entries
lookup-copy_entries_off src dst p [] fs h = refl
lookup-copy_entries_off src dst p ((q, n) ∷ es) fs h =
    by_case (below src q) ∙ lookup-copy_entries_off src dst p es fs h
  where
    fs' : FileTree
    fs' = copy_entries src dst es fs

    by_case : (o : Option (List Text)) → lookup p (copy_entry dst o n fs') ≡ lookup p fs'
    by_case none = refl
    by_case (some r) = lookup-write (dst ++ r) p n fs' (beq_append dst r p h)

pub lookup-copytree_off :
    (src dst p : List Text) (fs : FileTree)
    → is_under dst p ≡ false
    → is_under p dst ≡ false
    → lookup p (copytree src dst fs) ≡ lookup p fs
unfolding copytree
lookup-copytree_off src dst p fs h k =
    lookup-copy_entries_off src dst p fs (mkdir_parents dst fs) h ∙ lookup-mkdir_parents dst p fs k

mem-names_in :
    (d : List Text) (all : FileTree) (n : Text) (es : FileTree)
    → mem n (names_in d all es) ≡ (is_dir (d ++ n ∷ []) all && exists (d ++ n ∷ []) es)
unfolding names_in lookup mem list_beq
mem-names_in d all n [] = ground arith
mem-names_in d all n ((p, node) ∷ es) = elim (Option-cases (below d p)) [
  | inl out ↦ rw (out, off out, mem-names_in d all n es) refl
  | inr (r, found) ↦
      rw (found, below-some d p r found, append-beq d r (n ∷ []))
        (by_case r _ (mem-names_in d all n es))
]
  where
    off : below d p ≡ none → list_beq p (d ++ n ∷ []) ≡ false
    off h = ground (arith, list_beq_iff p (d ++ n ∷ []), below-append d (n ∷ []))

    and_true : (b : Bool) → (b && true) ≡ b
    and_true b = ground arith

    and_false : (b : Bool) → (b && false) ≡ false
    and_false b = ground arith

    here : Bool
    here = is_dir (d ++ n ∷ []) all

    one :
        (a : Text) (b : Bool) (names : List Text)
        → (list_beq a n ≡ true → b ≡ here)
        → mem n names ≡ (here && exists (d ++ n ∷ []) es)
        → mem n (onto_names (some (a ∷ [])) b names)
          ≡ (here && is_some (if list_beq a n then some node else lookup (d ++ n ∷ []) es))
    one a true names same h = ground arith
    one a false names same h = ground arith

    by_case :
        (r : List Text) (names : List Text)
        → mem n names ≡ (here && exists (d ++ n ∷ []) es)
        → mem n (onto_names (some r) (is_dir (d ++ r) all) names)
          ≡ (here && is_some (if list_beq r (n ∷ []) then some node else lookup (d ++ n ∷ []) es))
    by_case [] names h = h
    by_case (a ∷ []) names h = rw (and_true (list_beq a n)) (
        one a (is_dir (d ++ a ∷ []) all) names
          (λ e. ap (λ c. is_dir (d ++ c ∷ []) all) ((list_beq_iff a n).0 e)) h)
    by_case (a ∷ b ∷ r) names h = rw (and_false (list_beq a n)) h

pub mem-subdirs :
    (d : List Text) (n : Text) (fs : FileTree) → mem n (subdirs d fs) ≡ is_dir (d ++ n ∷ []) fs
unfolding subdirs
mem-subdirs d n fs = mem-names_in d fs n fs ∙ by_case (lookup (d ++ n ∷ []) fs)
  where
    by_case : (o : Option Node) → (is_dir_node o && is_some o) ≡ is_dir_node o
    by_case none = refl
    by_case (some dir) = refl
    by_case (some (file t)) = refl

-- Every file and directory stands in directories that are there.
abbrev pub IsTree : FileTree → Type 0
IsTree fs = (d r : List Text) → exists d fs ≡ false → exists (d ++ r) fs ≡ false

pub lookup-removed_tree :
    (d r : List Text) (fs : FileTree)
    → exists d fs ≡ true
    → lookup (d ++ r) (remove_tree d fs) ≡ none
unfolding remove_tree
lookup-removed_tree d r fs e = rw e (lookup-rmtree d (d ++ r) fs ∙ rw (below-append d r) refl)

pub lookup-removed :
    (d r : List Text) (fs : FileTree) → IsTree fs → lookup (d ++ r) (remove_tree d fs) ≡ none
unfolding remove_tree
lookup-removed d r fs tree = elim (Bool-cases (exists d fs)) [
  | inl e ↦ lookup-removed_tree d r fs e
  | inr e ↦ rw e (absent (lookup (d ++ r) fs) (tree d r e))
]
  where
    absent : (o : Option Node) → is_some o ≡ false → o ≡ none
    absent none h = refl
    absent (some n) h = cc

-- A tree that is copied to where nothing was is found there.
pub fresh_copy :
    (src dst r : List Text) (fs : FileTree)
    → exists src fs ≡ true
    → ((a : Text) (x : List Text) → lookup (dst ++ a ∷ x) fs ≡ none)
    → lookup (dst ++ r) (copytree src dst fs) ≡ lookup (src ++ r) fs
fresh_copy src dst r fs h free =
    lookup-copytree src dst r fs ∙ by_case r (Option-cases (lookup (src ++ r) fs))
  where
    missing : (a : Text) (x : List Text) → lookup (dst ++ a ∷ x) (mkdir_parents dst fs) ≡ none
    missing a x = lookup-mkdir_parents dst (dst ++ a ∷ x) fs (deeper a x dst) ∙ free a x

    by_case :
        (r : List Text)
        → (lookup (src ++ r) fs ≡ none) ⊎ ((n : Node) × (lookup (src ++ r) fs ≡ some n))
        → or_node (lookup (src ++ r) fs) (lookup (dst ++ r) (mkdir_parents dst fs))
          ≡ lookup (src ++ r) fs
    by_case r (inr (n, e)) = rw e refl
    by_case [] (inl e) = absurd (cc (ap (λ q. exists q fs) (append-nil src), h, e))
    by_case (a ∷ x) (inl e) = rw (e, missing a x) refl
