-- ===== src/Texts/Split.antt =====
-- Laws of `split`: its parts, what joining two texts by the separator does, and searching the
-- padded text for a padded part.
use deslop.Prelude.{
  ℕ, false, List, [], ◌∷◌, ◌++◌, ◌≡◌, ◌≢◌, refl, arith, ap, Text, starts_with, contains, split,
  onto_first, mem, ◌==◌, nat_eq, list_eq, list_beq, Bool-cases, inl, inr, beq_refl,
}

abbrev head_or : Text → List Text → Text
head_or d [] = d
head_or d (w ∷ ws) = w

abbrev tail : List Text → List Text
tail [] = []
tail (w ∷ ws) = ws

module _ (sep : ℕ) where
  pub split-ne-nil : (s : Text) → split sep s ≢ []
  unfolding split
  split-ne-nil [] h = cc
  split-ne-nil (c ∷ s) h = ground arith

  onto_first-append :
      (c : ℕ) (ws vs : List Text) → ws ≢ [] → onto_first c (ws ++ vs) ≡ onto_first c ws ++ vs
  onto_first-append c [] vs h = absurd (h refl)
  onto_first-append c (w ∷ ws) vs h = refl

  -- Splitting at a separator that stands in the text splits the two sides.
  pub split-append : (s t : Text) → split sep (s ++ sep ∷ t) ≡ split sep s ++ split sep t
  unfolding split
  split-append [] t = rw (beq_refl sep)
  split-append (c ∷ s) t = elim (Bool-cases (c == sep)) [
    | inl same ↦ rw same (ap (◌∷◌ []) (split-append s t))
    | inr other ↦ rw (other, split-append s t) (onto_first-append c _ _ (split-ne-nil s))
  ]

  starts_with-part :
      (s d : Text)
      → mem sep d ≡ false
      → starts_with (s ++ sep ∷ []) (d ++ sep ∷ []) ≡ list_beq (head_or [] (split sep s)) d
  unfolding starts_with split mem list_beq
  starts_with-part [] [] h = rw (beq_refl sep)
  starts_with-part [] (x ∷ d) h = ground arith
  starts_with-part (c ∷ s) [] h = ground arith
  starts_with-part (c ∷ s) (x ∷ d) h = ground (arith, starts_with-part s d)

  contains-part :
      (s d : Text)
      → mem sep d ≡ false
      → contains (s ++ sep ∷ []) (sep ∷ (d ++ sep ∷ [])) ≡ mem d (tail (split sep s))
  unfolding contains split mem starts_with
  contains-part [] [] h = ground arith
  contains-part [] (x ∷ d) h = ground arith
  contains-part (c ∷ s) d h =
      ground (arith, contains-part s d, starts_with-part s d, split-ne-nil s)

  -- For a text without the separator: it is a part exactly when it is found between separators.
  pub contains-split :
      (s d : Text)
      → mem sep d ≡ false
      → contains (sep ∷ (s ++ sep ∷ [])) (sep ∷ (d ++ sep ∷ [])) ≡ mem d (split sep s)
  unfolding contains mem starts_with
  contains-split s d h = ground (arith, contains-part s d, starts_with-part s d, split-ne-nil s)
