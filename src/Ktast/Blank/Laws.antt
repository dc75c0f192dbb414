-- ===== src/Ktast/Blank/Laws.antt =====
-- What blanking keeps: the length, the place of every character that is left, and all of a text
-- that is blanked already.
use deslop.Prelude.{
  ℕ, zero, suc, Bool, true, false, ◌&&◌, ◌||◌, [], ◌∷◌, Text, codes, starts_with, ◌==◌, nat_eq, ◌≡◌,
  refl, arith, length, get_elem?, some, ap, ◌≢◌, inl, inr, ◌⊎◌,
}
use deslop.Ktast.Blank.{Loop, code, line_comment, space, step, scan, blank_strings_and_comments}

length-scan : (s : Text) (l : Loop) (k : ℕ) → length (scan l k s) ≡ length s
unfolding scan
length-scan [] l k = refl
length-scan (c ∷ s) l (suc k) = ap suc (length-scan s l k)
length-scan (c ∷ s) l zero = ap suc (length-scan s (step l c s).loop (step l c s).skip)

step-out_cases : (l : Loop) (c : ℕ) (s : Text) → ((step l c s).out ≡ space) ⊎ ((step l c s).out ≡ c)
unfolding step
step-out_cases code c s = ground arith
step-out_cases _ c s = ground arith

step-out : (l : Loop) (c : ℕ) (s : Text) → (step l c s).out ≢ space → (step l c s).out ≡ c
step-out l c s h = elim (step-out_cases l c s) [ inl blank ↦ absurd (h blank) | inr kept ↦ kept ]

-- Each place has a space, or what the text has there.
scan-places :
    (s : Text) (l : Loop) (k i : ℕ)
    → (get_elem? (scan l k s) i ≡ some space) ⊎ (get_elem? (scan l k s) i ≡ get_elem? s i)
unfolding scan
scan-places [] l k i = inr refl
scan-places (c ∷ s) l (suc k) zero = inl refl
scan-places (c ∷ s) l (suc k) (suc i) = scan-places s l k i
scan-places (c ∷ s) l zero zero = elim (step-out_cases l c s) [
  | inl blank ↦ inl (ap some blank)
  | inr kept ↦ inr (ap some kept)
]
scan-places (c ∷ s) l zero (suc i) = scan-places s (step l c s).loop (step l c s).skip i

-- `c` opens a comment or a literal before the text `s`.
abbrev opens : ℕ → Text → Bool
opens c s =
    (c == b'/' && (starts_with s (codes "/") || starts_with s (codes "*")))
    || (c == b'"' || c == b'\'')

abbrev Quiet : Text → Type 0
Quiet [] = Unit
Quiet (c ∷ s) = (opens c s ≡ false) × Quiet s

scan-Quiet_eq : (s : Text) → Quiet s → scan code 0 s ≡ s
unfolding scan step starts_with
scan-Quiet_eq [] q = refl
scan-Quiet_eq (c ∷ s) q = ground (arith, scan-Quiet_eq s q.1)

starts_with-scan :
    (s : Text) (l : Loop) (k x : ℕ)
    → x ≢ space
    → starts_with (scan l k s) (x ∷ []) ≡ true
    → starts_with s (x ∷ []) ≡ true
unfolding scan starts_with
starts_with-scan [] l k x ne h = h
starts_with-scan (c ∷ s) l (suc k) x ne h = ground arith
starts_with-scan (c ∷ s) l zero x ne h = ground (arith, step-out l c s)

step-opens :
    (l : Loop) (c : ℕ) (s : Text)
    → opens (step l c s).out (scan (step l c s).loop (step l c s).skip s) ≡ false
unfolding step starts_with
step-opens code c s = ground (
  arith,
  starts_with-scan s code 0 b'/' (omega arith),
  starts_with-scan s code 0 b'*' (omega arith),
)
step-opens line_comment c s = ground arith
step-opens _ c s = ground arith

scan-Quiet : (s : Text) (l : Loop) (k : ℕ) → Quiet (scan l k s)
unfolding scan starts_with
scan-Quiet [] l k = tt
scan-Quiet (c ∷ s) l (suc k) = (ground arith, scan-Quiet s l k)
scan-Quiet (c ∷ s) l zero = (step-opens l c s, scan-Quiet s (step l c s).loop (step l c s).skip)

-- No comment and no literal is left, or made by the blanks.
blank_strings_and_comments_idem :
    (src : Text)
    → blank_strings_and_comments (blank_strings_and_comments src) ≡ blank_strings_and_comments src
unfolding blank_strings_and_comments
blank_strings_and_comments_idem src = scan-Quiet_eq (scan code 0 src) (scan-Quiet src code 0)

-- Blanking keeps the length, each place of the result has a space or what the source has there, and
-- blanking twice is blanking once.
pub blank_strings_and_comments_places :
    (src : Text) (i : ℕ)
    → (length (blank_strings_and_comments src) ≡ length src)
      × ((get_elem? (blank_strings_and_comments src) i ≡ some space)
          ⊎ (get_elem? (blank_strings_and_comments src) i ≡ get_elem? src i))
      × (blank_strings_and_comments (blank_strings_and_comments src)
          ≡ blank_strings_and_comments src)
unfolding blank_strings_and_comments
blank_strings_and_comments_places src i =
    (length-scan src code 0, scan-places src code 0 i, blank_strings_and_comments_idem src)
