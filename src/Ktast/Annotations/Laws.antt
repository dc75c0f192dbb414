-- ===== src/Ktast/Annotations/Laws.antt =====
-- The loop of `_annotations_before` ends, and its fuel is enough.
use deslop.Prelude.{
  ℕ, zero, suc, ◌≤◌, ◌<◌, ◌≡◌, refl, List, [], ◌∷◌, Text, take, Option, none, some, arith,
  starts_with, ◌==◌, nat_eq, Bool-cases, inl, inr,
}
use deslop.Ktast.Annotations.{
  or_here, rfind, Round, ended, again, go_on, with_line, read_line, round, follow, loop,
  annotations_above,
}

-- The loop goes on at an earlier position, if it goes on.
abbrev pub GoesDown : ℕ → Round → Type 0
GoesDown pos (ended found) = Unit
GoesDown pos (again next found) = next < pos

-- A place in a text of at most `n` characters, if there is one.
abbrev Within : ℕ → Option ℕ → Type 0
Within n none = Unit
Within n (some i) = i < n

or_here-Within : (sep n c : ℕ) (o : Option ℕ) → Within n o → Within (suc n) (or_here c sep o)
or_here-Within sep n c none h = elim (Bool-cases (c == sep)) [
  | inl e ↦ rw e (omega arith)
  | inr e ↦ rw e tt
]
or_here-Within sep n c (some i) h = omega (arith, h)

rfind-Within : (sep : ℕ) (n : ℕ) (s : Text) → Within n (rfind sep (take n s))
unfolding rfind
rfind-Within sep zero s = tt
rfind-Within sep (suc n) [] = tt
rfind-Within sep (suc n) (c ∷ s) =
    or_here-Within sep n c (rfind sep (take n s)) (rfind-Within sep n s)

go_on-GoesDown :
    (n : ℕ) (o : Option ℕ) (found : List Text) → Within n o → GoesDown (suc n) (go_on o found)
go_on-GoesDown n none found h = tt
go_on-GoesDown n (some i) found h = omega (arith, h)

with_line-GoesDown :
    (n : ℕ) (o : Option ℕ) (line : Text) (anns found : List Text)
    → Within n o
    → GoesDown (suc n) (with_line o line anns found)
with_line-GoesDown n o line [] found h = tt
with_line-GoesDown n o line (ann ∷ anns) found h =
    elim (Bool-cases (starts_with line (b'@' ∷ []))) [
      | inl e ↦ rw e (go_on-GoesDown n o _ h)
      | inr e ↦ rw e tt
    ]

module _ (find_annotations : Text → List Text) where
  read_line-GoesDown :
      (n : ℕ) (o : Option ℕ) (line : Text) (found : List Text)
      → Within n o
      → GoesDown (suc n) (read_line find_annotations o line found)
  read_line-GoesDown n o [] found h = go_on-GoesDown n o found h
  read_line-GoesDown n o (c ∷ line) found h = with_line-GoesDown n o (c ∷ line) _ found h

  module _ (text : Text) where
    round-GoesDown :
        (pos : ℕ) (found : List Text) → GoesDown pos (round find_annotations text pos found)
    unfolding round
    round-GoesDown zero found = tt
    round-GoesDown (suc pos) found =
        read_line-GoesDown pos (rfind b'\n' (take pos text)) _ found (rfind-Within b'\n' pos text)

    follow-enough :
        (n m pos : ℕ) (r : Round)
        → ((next : ℕ) (found : List Text)
            → next ≤ n
            → next ≤ m
            → loop find_annotations text n next found ≡ loop find_annotations text m next found)
        → pos ≤ suc n
        → pos ≤ suc m
        → GoesDown pos r
        → follow (loop find_annotations text n) r ≡ follow (loop find_annotations text m) r
    follow-enough n m pos (ended found) same le le' down = refl
    follow-enough n m pos (again next found) same le le' down =
        same next found (omega (arith, le, down)) (omega (arith, le', down))

    -- All fuel of the position and above gives the same.
    loop-enough :
        (n m pos : ℕ) (found : List Text)
        → pos ≤ n
        → pos ≤ m
        → loop find_annotations text n pos found ≡ loop find_annotations text m pos found
    unfolding loop round
    loop-enough zero zero pos found le le' = refl
    loop-enough zero (suc m) zero found le le' = refl
    loop-enough zero (suc m) (suc pos) found le le' = absurd (omega (arith, le))
    loop-enough (suc n) zero zero found le le' = refl
    loop-enough (suc n) zero (suc pos) found le le' = absurd (omega (arith, le'))
    loop-enough (suc n) (suc m) pos found le le' =
        follow-enough n m pos (round find_annotations text pos found)
          (λ next found. loop-enough n m next found) le le' (round-GoesDown pos found)

    -- Each round of the loop that does not end it goes on at an earlier position, and the loop, run
    -- with a position's fuel, satisfies the loop's own equation, which has no fuel.
    pub annotations_above-follow :
        (pos : ℕ) (found : List Text)
        → GoesDown pos (round find_annotations text pos found)
          × (annotations_above find_annotations text pos found
              ≡ follow
                  (annotations_above find_annotations text)
                  (round find_annotations text pos found))
    unfolding annotations_above loop round
    annotations_above-follow zero found = (tt, refl)
    annotations_above-follow (suc pos) found = (
      round-GoesDown (suc pos) found,
      above pos (suc pos) (round find_annotations text (suc pos) found) (omega arith)
          (round-GoesDown (suc pos) found),
    )
      where
        above :
            (n pos : ℕ) (r : Round)
            → pos ≤ suc n
            → GoesDown pos r
            → follow (loop find_annotations text n) r
              ≡ follow (λ next found. loop find_annotations text next next found) r
        above n pos (ended found) le down = refl
        above n pos (again next found) le down =
            loop-enough n next next found (omega (arith, le, down)) (omega arith)
