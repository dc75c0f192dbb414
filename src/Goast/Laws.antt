-- ===== src/Goast/Laws.antt =====
-- The scope of the Go detectors against the scope of the runner, and the package clause.
use deslop.Prelude.{
  ℕ, Bool, true, false, ◌&&◌, ◌||◌, List, [], ◌∷◌, ◌++◌, Text, codes, starts_with, ends_with,
  contains, after_last, mem, if◌then◌else◌, nat_eq, ◌≡◌, refl, arith, ◌∙◌, sym, Bool-cases, inl,
  inr, any, list_eq, append_assoc, list_beq_iff, list_beq,
}
use deslop.Checkers.Common
use deslop.Checkers.Common.{normalized, padded, is_test_path, skip_dir_parts, test_suffix}
use deslop.Goast.{
  is_skipped, has_package_clause, lead, leading, line_comment, block_comment, is_blank, wrapped,
}

-- What may stand before the package clause.
pub data Front : Type 0 where
  blank : ℕ → Front
  line block : Text → Front

abbrev pub front : Front → Text
front (blank c) = c ∷ []
front (line t) = b'/' ∷ b'/' ∷ (t ++ b'\n' ∷ [])
front (block t) = b'/' ∷ b'*' ∷ (t ++ b'*' ∷ b'/' ∷ [])

abbrev pub IsFront : Front → Type 0
IsFront (blank c) = is_blank c ≡ true
IsFront (line t) = mem b'\n' t ≡ false
IsFront (block t) = contains (t ++ b'*' ∷ []) (codes "*/") ≡ false

unfoldable pub fronts : List Front → Text
fronts [] = []
fronts (f ∷ fs) = front f ++ fronts fs

abbrev pub AreFronts : List Front → Type 0
AreFronts [] = Unit
AreFronts (f ∷ fs) = IsFront f × AreFronts fs

lead-line :
    (t rest : Text)
    → mem b'\n' t ≡ false
    → lead line_comment (t ++ b'\n' ∷ rest) ≡ lead leading rest
unfolding lead mem
lead-line [] rest h = refl
lead-line (c ∷ t) rest h = ground (arith, lead-line t rest)

lead-block :
    (t rest : Text)
    → contains (t ++ b'*' ∷ []) (codes "*/") ≡ false
    → lead block_comment (t ++ b'*' ∷ b'/' ∷ rest) ≡ lead leading rest
unfolding lead contains starts_with
lead-block [] rest h = refl
lead-block (c ∷ []) rest h = ground (arith, lead-block [] rest)
lead-block (c ∷ d ∷ t) rest h = ground (arith, lead-block (d ∷ t) rest)

lead-front :
    (f : Front) (rest : Text) → IsFront f → lead leading (front f ++ rest) ≡ lead leading rest
unfolding lead mem starts_with
lead-front (blank c) rest h = rw h
lead-front (line t) rest h = rw (append_assoc t (b'\n' ∷ []) rest) (lead-line t rest h)
lead-front (block t) rest h = rw (append_assoc t (b'*' ∷ b'/' ∷ []) rest) (lead-block t rest h)

lead-clause : (s : Text) → lead leading (codes "package" ++ s) ≡ true
unfolding lead mem starts_with
lead-clause s = refl

lead-fronts :
    (fs : List Front) (s : Text)
    → AreFronts fs
    → lead leading (fronts fs ++ (codes "package" ++ s)) ≡ true
unfolding fronts
lead-fronts [] s h = lead-clause s
lead-fronts (f ∷ fs) s h =
    rw (append_assoc (front f) (fronts fs) (codes "package" ++ s))
      (lead-front f (fronts fs ++ (codes "package" ++ s)) h.0 ∙ lead-fronts fs s h.1)

-- A source that begins with blanks and comments, of both kinds, and then a package clause is not
-- wrapped, and every source has a package clause when it is wrapped.
pub wrapped-fronts :
    (fs : List Front) (s source : Text)
    → AreFronts fs
    → (wrapped (fronts fs ++ (codes "package" ++ s)) ≡ fronts fs ++ (codes "package" ++ s))
      × (has_package_clause (wrapped source) ≡ true)
unfolding wrapped has_package_clause
wrapped-fronts fs s source h = (
  rw (lead-fronts fs s h) refl,
  elim (Bool-cases (lead leading source)) [
    | inl has ↦ rw has has
    | inr none ↦ rw none (lead-clause (codes " main\n\n" ++ source))
  ],
)

starts_with-append : (s p t : Text) → starts_with s p ≡ true → starts_with (s ++ t) p ≡ true
unfolding starts_with
starts_with-append s [] t h = starts_with_nil (s ++ t)
  where
    starts_with_nil : (s : Text) → starts_with s [] ≡ true
    starts_with_nil [] = refl
    starts_with_nil (c ∷ s) = refl
starts_with-append [] (d ∷ p) t h = cc
starts_with-append (c ∷ s) (d ∷ p) t h = ground (arith, starts_with-append s p t)

contains-append : (s p t : Text) → contains s p ≡ true → contains (s ++ t) p ≡ true
unfolding contains
contains-append [] p t h = contains_start t p (starts_with-append [] p t h)
  where
    contains_start : (t p : Text) → starts_with t p ≡ true → contains t p ≡ true
    contains_start [] p h = h
    contains_start (c ∷ t) p h = rw h refl
contains-append (c ∷ s) p t h =
    ground (arith, starts_with-append (c ∷ s) p t, contains-append s p t)

contains-padded : (norm p : Text) → contains norm p ≡ true → contains (padded norm) p ≡ true
unfolding contains
contains-padded norm p h = ground (arith, contains-append norm p (b'/' ∷ []))

starts_with-padded :
    (norm p : Text) → starts_with norm p ≡ true → contains (padded norm) (b'/' ∷ p) ≡ true
unfolding contains starts_with
starts_with-padded norm p h = ground (arith, starts_with-append norm p (b'/' ∷ []))

any_of_mem :
    (p : Text → Bool) (d : Text) (ds : List Text) → mem d ds ≡ true → p d ≡ true → any p ds ≡ true
unfolding mem
any_of_mem p d [] h k = cc
any_of_mem p d (x ∷ ds) h k = ground (arith, list_beq_iff x d, any_of_mem p d ds)

or_4 : (a b c d : Bool) → (a || b) ≡ true → (a ≡ true → c ≡ true) → (b ≡ true → c ≡ true) → c ≡ true
or_4 a b c d h f g = ground arith

-- The directory is a skipped one, so a path that shows it is skipped.
skipped_dir :
    (filename d : Text)
    → mem d skip_dir_parts ≡ true
    → contains (padded (normalized filename)) (padded d) ≡ true
    → Common.is_skipped filename (codes "go") false ≡ true
unfolding Common.is_skipped
skipped_dir filename d listed shown = rest _ _ (
    any_of_mem (λ d. contains (padded (normalized filename)) (padded d)) d skip_dir_parts listed
      shown)
  where
    rest :
        (a : Bool) {b : Bool} (c : Bool)
        → b ≡ true
        → (if a then true else if b then true else c) ≡ true
    rest a c h = ground arith

skipped_test :
    (filename : Text)
    → is_test_path (normalized filename) (after_last b'/' (normalized filename)) (codes "go") ≡ true
    → Common.is_skipped filename (codes "go") false ≡ true
unfolding Common.is_skipped
skipped_test filename h = rw h (rest _ _)
  where
    rest : (a b : Bool) → (if a then true else if b then true else true) ≡ true
    rest a b = ground arith

go_test :
    (norm name : Text)
    → (ends_with name (codes "_test.go")
        || (ends_with name (codes "_tests.go") || starts_with name (codes "test_")))
      ≡ true
    → is_test_path norm name (codes "go") ≡ true
unfolding is_test_path test_suffix list_beq mem
go_test norm name h = by_case _ _ _ _ h
  where
    by_case :
        (x a b t : Bool)
        → (a || (b || t)) ≡ true
        → (if x then true else if t && true then true else (a || (b || false))) ≡ true
    by_case x a b t h = ground arith

or_right : (a b : Bool) → a ≡ false → (a || b) ≡ true → b ≡ true
or_right a b e h = ground arith

join_3 : (a b c rest : Bool) → (a || (b || (c || rest))) ≡ ((a || (b || c)) || rest)
join_3 a b c rest = ground arith

split_or {ℓ} : {P : Type ℓ} (a b : Bool) → (a || b) ≡ true → (a ≡ true → P) → (b ≡ true → P) → P
split_or true b h f g = f refl
split_or false b h f g = g h

in_dir :
    (filename d : Text)
    → mem d skip_dir_parts ≡ true
    → (contains (normalized filename) (padded d)
        || starts_with (normalized filename) (d ++ b'/' ∷ []))
      ≡ true
    → Common.is_skipped filename (codes "go") false ≡ true
in_dir filename d listed h = skipped_dir filename d listed (
    split_or _ _ h (contains-padded (normalized filename) (padded d))
      (starts_with-padded (normalized filename) (d ++ b'/' ∷ [])))

listed_testdata : mem (codes "testdata") skip_dir_parts ≡ true
unfolding mem list_beq
listed_testdata = refl

listed_vendor : mem (codes "vendor") skip_dir_parts ≡ true
unfolding mem list_beq
listed_vendor = refl

listed_e2e : mem (codes "e2e") skip_dir_parts ≡ true
unfolding mem list_beq
listed_e2e = refl

-- A Go file that the Go client's own test skips is skipped by the test that the runner uses.
pub is_skipped-is_skipped :
    (filename : Text)
    → is_skipped filename false ≡ true
    → Common.is_skipped filename (codes "go") false ≡ true
unfolding is_skipped
is_skipped-is_skipped filename h =
    let norm : Text = normalized filename in
    let name : Text = after_last b'/' norm in
    split_or _ _
      (sym (
          join_3 (ends_with name (codes "_test.go")) (ends_with name (codes "_tests.go"))
            (starts_with name (codes "test_")) _)
        ∙ h)
      (λ test. skipped_test filename (go_test norm name test))
      (λ dir. split_or _ _ dir (in_dir filename (codes "testdata") listed_testdata) (λ dir.
        split_or _ _ dir (in_dir filename (codes "vendor") listed_vendor) (λ dir.
          split_or _ _ dir
            (λ e.
              skipped_dir filename (codes "e2e") listed_e2e
                (contains-padded norm (codes "/e2e/") e))
            (λ e. skipped_dir filename (codes "e2e") listed_e2e e))))
