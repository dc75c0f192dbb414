-- ===== src/Install/Frames.antt =====
-- What the steps of scripts/install.py leave alone: a step that works in one area of the target leaves
-- the paths outside of it.
use deslop.Prelude.{
  Bool, true, false, List, [], ◌∷◌, ◌++◌, Text, Option, none, some, list_eq, nat_eq, ◌≡◌, ◌≢◌, sym,
  list_beq, list_beq_iff, refl, ◌∙◌, append_assoc,
}
use deslop.Install.Actions.{Keeps}
use deslop.Install.Files.{
  below, is_some, is_under, file, write_text, mkdir, mkdir_parents, remove_tree, copytree,
  copy_file,
}
use deslop.Install.Copies.{lookup-copytree_off}
use deslop.Install.Paths.{
  beq_below, lookup-write, lookup-mkdir, lookup-mkdir_parents, lookup-remove_tree, lookup-copy_file,
  below-some, below_both,
}

-- No path of the set is at a place or below it; none is below an area or leads to a place in it.
abbrev pub Off : (List Text → Bool) → List Text → Type 0
Off r d = (p : List Text) → r p ≡ true → is_under d p ≡ false

abbrev pub Clear : (List Text → Bool) → Text → Type 0
Clear r area =
    (d p : List Text)
    → r p ≡ true
    → (is_under (area ∷ d) p ≡ false) × (is_under p (area ∷ d) ≡ false)

module _ (r : List Text → Bool) where
  pub Keeps-write : (d : List Text) (t : Text) → Off r d → Keeps r (write_text d t)
  Keeps-write d t off fs p h = lookup-write d p (file t) fs (beq_below d p (off p h))

  pub Keeps-mkdir : (d : List Text) → Off r d → Keeps r (mkdir d)
  Keeps-mkdir d off fs p h = lookup-mkdir d p fs (beq_below d p (off p h))

  pub Keeps-remove_tree : (d : List Text) → Off r d → Keeps r (remove_tree d)
  Keeps-remove_tree d off fs p h = lookup-remove_tree d p fs (off p h)

  pub Keeps-copy_file : (src dst : List Text) → Off r dst → Keeps r (copy_file src dst)
  Keeps-copy_file src dst off fs p h = lookup-copy_file src dst p fs (off p h)

  module _ (area : Text) (clear : Clear r area) where
    pub Off-Clear : (d : List Text) → Off r (area ∷ d)
    Off-Clear d p h = (clear d p h).0

    pub Keeps-mkdir_parents : (d : List Text) → Keeps r (mkdir_parents (area ∷ d))
    Keeps-mkdir_parents d fs p h = lookup-mkdir_parents (area ∷ d) p fs (clear d p h).1

    pub Keeps-copytree : (src d : List Text) → Keeps r (copytree src (area ∷ d))
    Keeps-copytree src d fs p h =
        lookup-copytree_off src (area ∷ d) p fs (clear d p h).0 (clear d p h).1

-- No path of one area is below a path of another.
pub areas_apart :
    (a b : Text) (d p : List Text)
    → a ≢ b
    → (is_under (a ∷ d) (b ∷ p) ≡ false) × (is_under (b ∷ p) (a ∷ d) ≡ false)
unfolding below
areas_apart a b d p h = (
  rw (differs a b h (list_beq a b) (list_beq_iff a b).0) refl,
  rw (differs b a (λ e. h (sym e)) (list_beq b a) (list_beq_iff b a).0) refl,
)
  where
    differs : (s t : Text) → s ≢ t → (x : Bool) → (x ≡ true → s ≡ t) → x ≡ false
    differs s t n true e = absurd (n (e refl))
    differs s t n false e = refl

-- The paths of one area, and those of one path.
abbrev pub in_area : Text → List Text → Bool
in_area a [] = false
in_area a (b ∷ d) = list_beq a b

pub in_area-Clear : (a b : Text) → a ≢ b → Clear (in_area b) a
in_area-Clear a b n d [] h = cc
in_area-Clear a b n d (c ∷ p) h = areas_apart a c d p (λ e. n (e ∙ sym ((list_beq_iff b c).0 h)))

-- No path of the set is at the place, below it or on the way to a path below it.
abbrev pub Away : (List Text → Bool) → List Text → Type 0
Away r d =
    (x p : List Text) → r p ≡ true → (is_under (d ++ x) p ≡ false) × (is_under p (d ++ x) ≡ false)

-- Two parts of one directory.
pub parts_apart :
    (d : List Text) (a b : Text) → a ≢ b → Away (λ q. is_under (d ++ a ∷ []) q) (d ++ b ∷ [])
parts_apart d a b n x q h = by_case (below (d ++ a ∷ []) q) refl h
  where
    by_case :
        (o : Option (List Text))
        → below (d ++ a ∷ []) q ≡ o
        → is_some o ≡ true
        → (is_under ((d ++ b ∷ []) ++ x) q ≡ false) × (is_under q ((d ++ b ∷ []) ++ x) ≡ false)
    by_case none e h = cc
    by_case (some r) e h =
        rw
          (
            below-some (d ++ a ∷ []) q r e,
            append_assoc d (a ∷ []) r,
            append_assoc d (b ∷ []) x,
            below_both d (b ∷ x) (a ∷ r),
            below_both d (a ∷ r) (b ∷ x),
          )
          (areas_apart b a x r (λ s. n (sym s)))
