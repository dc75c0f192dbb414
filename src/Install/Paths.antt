-- ===== src/Install/Paths.antt =====
-- Where a changed path is found again: the laws of the operations on files of scripts/install.py.
use deslop.Prelude.{
  Bool, true, false, List, [], ◌∷◌, ◌++◌, Text, Option, none, some, lookup, assign, if◌then◌else◌,
  list_eq, nat_eq, list_beq, list_beq_iff, ◌≡◌, ◌≢◌, refl, arith, ◌∙◌, sym, ap, lookup-assign,
  append_assoc, pair_eq, beq_refl, append-nil,
}
use deslop.Install.Files.{
  Node, dir, FileTree, below, is_under, exists, mkdir, mkdir_parts, mkdir_parents, rmtree,
  remove_tree, copy_file, copy_node,
}

pub below-append : (d r : List Text) → below d (d ++ r) ≡ some r
unfolding below
below-append [] r = refl
below-append (a ∷ d) r = rw (beq_refl a) (below-append d r)

pub append-beq : (d r t : List Text) → list_beq (d ++ r) (d ++ t) ≡ list_beq r t
unfolding list_beq
append-beq [] r t = refl
append-beq (a ∷ d) r t = rw (beq_refl a) (append-beq d r t)

pub below-some : (d p r : List Text) → below d p ≡ some r → p ≡ d ++ r
unfolding below
below-some [] p r h = ground arith
below-some (a ∷ d) [] r h = cc
below-some (a ∷ d) (b ∷ p) r h = ground (arith, below-some d p r, list_beq_iff a b)

pub below_both : (d x y : List Text) → below (d ++ x) (d ++ y) ≡ below x y
unfolding below
below_both [] x y = refl
below_both (a ∷ d) x y = rw (beq_refl a) (below_both d x y)

pub lookup-rmtree :
    (d p : List Text) (fs : FileTree)
    → lookup p (rmtree d fs) ≡ (if is_under d p then none else lookup p fs)
unfolding lookup rmtree
lookup-rmtree d p [] = ground arith
lookup-rmtree d p ((q, n) ∷ fs) = ground (arith, lookup-rmtree d p fs, list_beq_iff q p)

-- A path that goes on from another differs from one that is not below that, and a path differs from
-- one that goes on to no path through it.
pub beq_append : (d r p : List Text) → is_under d p ≡ false → list_beq (d ++ r) p ≡ false
beq_append d r p h = by_case (list_beq (d ++ r) p) (list_beq_iff (d ++ r) p).0
  where
    by_case : (b : Bool) → (b ≡ true → d ++ r ≡ p) → b ≡ false
    by_case false e = refl
    by_case true e = absurd (cc (below-append d r, e refl, h))

pub beq_below : (d p : List Text) → is_under d p ≡ false → list_beq d p ≡ false
beq_below d p h = ap (λ q. list_beq q p) (sym (append-nil d)) ∙ beq_append d [] p h

beq_above : (d p q : List Text) → is_under q (d ++ p) ≡ false → list_beq d q ≡ false
beq_above d p q h = by_case (list_beq d q) (list_beq_iff d q).0
  where
    by_case : (b : Bool) → (b ≡ true → d ≡ q) → b ≡ false
    by_case false e = refl
    by_case true e = absurd (cc (below-append q p, e refl, h))

-- A change at a path leaves the others.
pub lookup-write :
    (d p : List Text) (n : Node) (fs : FileTree)
    → list_beq d p ≡ false
    → lookup p (assign d n fs) ≡ lookup p fs
lookup-write d p n fs h = lookup-assign d p n fs ∙ rw h refl

pub lookup-mkdir :
    (d p : List Text) (fs : FileTree) → list_beq d p ≡ false → lookup p (mkdir d fs) ≡ lookup p fs
unfolding mkdir
lookup-mkdir d p fs h = ground (arith, lookup-write d p dir fs h)

pub lookup-remove_tree :
    (d p : List Text) (fs : FileTree)
    → is_under d p ≡ false
    → lookup p (remove_tree d fs) ≡ lookup p fs
unfolding remove_tree
lookup-remove_tree d p fs h = ground (arith, lookup-rmtree d p fs)

pub lookup-copy_file :
    (src dst p : List Text) (fs : FileTree)
    → is_under dst p ≡ false
    → lookup p (copy_file src dst fs) ≡ lookup p fs
unfolding copy_file
lookup-copy_file src dst p fs h = by_case (lookup src fs)
  where
    by_case : (o : Option Node) → lookup p (copy_node dst o fs) ≡ lookup p fs
    by_case none = refl
    by_case (some n) = lookup-write dst p n fs (beq_below dst p h)

-- `mkdir` with the parents changes the parts of the path alone, and none that is there.
lookup-mkdir_parts :
    (made p q : List Text) (fs : FileTree)
    → is_under q (made ++ p) ≡ false
    → lookup q (mkdir_parts made p fs) ≡ lookup q fs
unfolding mkdir_parts
lookup-mkdir_parts made [] q fs h = refl
lookup-mkdir_parts made (a ∷ p) q fs h =
    lookup-mkdir_parts (made ++ a ∷ []) p q (mkdir (made ++ a ∷ []) fs)
      (rw (append_assoc made (a ∷ []) p) h)
    ∙ lookup-mkdir (made ++ a ∷ []) q fs
        (beq_above (made ++ a ∷ []) p q (rw (append_assoc made (a ∷ []) p) h))

pub lookup-mkdir_parents :
    (d q : List Text) (fs : FileTree)
    → is_under q d ≡ false
    → lookup q (mkdir_parents d fs) ≡ lookup q fs
unfolding mkdir_parents
lookup-mkdir_parents d q fs h = lookup-mkdir_parts [] d q fs h

pub exists-mkdir : (d : List Text) (fs : FileTree) → exists d (mkdir d fs) ≡ true
unfolding mkdir
exists-mkdir d fs = by_case (exists d fs) refl
  where
    by_case : (b : Bool) → exists d fs ≡ b → exists d (if b then fs else assign d dir fs) ≡ true
    by_case true e = e
    by_case false e = rw (lookup-assign d d dir fs, beq_refl d) refl

exists-mkdir_parts :
    (made p : List Text) (fs : FileTree)
    → exists made fs ≡ true
    → exists (made ++ p) (mkdir_parts made p fs) ≡ true
unfolding mkdir_parts
exists-mkdir_parts made [] fs h = rw (append-nil made) h
exists-mkdir_parts made (a ∷ p) fs h =
    ap (λ q. exists q (mkdir_parts (made ++ a ∷ []) p (mkdir (made ++ a ∷ []) fs)))
      (sym (append_assoc made (a ∷ []) p))
    ∙ exists-mkdir_parts (made ++ a ∷ []) p _ (exists-mkdir (made ++ a ∷ []) fs)

pub exists-mkdir_parents :
    (a : Text) (d : List Text) (fs : FileTree) → exists (a ∷ d) (mkdir_parents (a ∷ d) fs) ≡ true
unfolding mkdir_parents mkdir_parts
exists-mkdir_parents a d fs = exists-mkdir_parts (a ∷ []) d _ (exists-mkdir (a ∷ []) fs)

pub unequal : (s t : Text) → list_beq s t ≡ false → s ≢ t
unequal s t h e = by_case (list_beq s t) h ((list_beq_iff s t).1 e)
  where
    by_case : (b : Bool) → b ≡ false → b ≢ true
    by_case b f t = ground arith

pub not_equal : {s t : List Text} → s ≢ t → list_beq s t ≡ false
not_equal {s} {t} n = by_case (list_beq s t) (list_beq_iff s t).0
  where
    by_case : (b : Bool) → (b ≡ true → s ≡ t) → b ≡ false
    by_case true e = absurd (n (e refl))
    by_case false e = refl

-- A directory that is made where nothing was.
pub made_dir :
    (made : List Text) (a : Text) (p : List Text) (fs : FileTree)
    → lookup (made ++ a ∷ p) fs ≡ none
    → lookup (made ++ a ∷ p) (mkdir_parts made (a ∷ p) fs) ≡ some dir
unfolding mkdir_parts mkdir
made_dir made a [] fs h =
    rw (h, lookup-assign (made ++ a ∷ []) (made ++ a ∷ []) dir fs, beq_refl (made ++ a ∷ [])) refl
made_dir made a (b ∷ p) fs h =
    ap (λ q. lookup q (mkdir_parts (made ++ a ∷ []) (b ∷ p) fs'))
      (sym (append_assoc made (a ∷ []) (b ∷ p)))
    ∙ made_dir (made ++ a ∷ []) b p fs' (
        rw (append_assoc made (a ∷ []) (b ∷ p))
          (lookup-mkdir (made ++ a ∷ []) (made ++ a ∷ b ∷ p) fs shorter ∙ h))
  where
    fs' : FileTree
    fs' = mkdir (made ++ a ∷ []) fs

    nowhere : list_beq (a ∷ []) (a ∷ b ∷ p) ≡ false
    nowhere = not_equal (λ e. cc)

    shorter : list_beq (made ++ a ∷ []) (made ++ a ∷ b ∷ p) ≡ false
    shorter = append-beq made (a ∷ []) (a ∷ b ∷ p) ∙ nowhere

pub deeper : (a : Text) (x d : List Text) → is_under (d ++ a ∷ x) d ≡ false
unfolding below
deeper a x [] = refl
deeper a x (b ∷ d) = rw (beq_refl b) (deeper a x d)
