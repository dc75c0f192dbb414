-- ===== src/Checkers/Common/Paths.antt =====
-- Which paths `is_skipped` leaves out.
use deslop.Prelude.{
  Bool, true, false, ◌||◌, ◌&&◌, List, [], ◌∷◌, ◌++◌, ◌≡◌, refl, arith, sym, ◌∙◌, Text, contains,
  split, replace, mem, any, any-append, if◌then◌else◌, nat_eq, list_eq, All, after_last,
}
use deslop.Checkers.Common.{is_skipped, is_test_path, skip_dir_parts, normalized, padded}
use deslop.Texts.Split.{contains-split, split-append}
use mathlib.Core.List.{map-append}
use deslop.Prelude.{Eq, not}

module _ {ℓ} {A : Type ℓ} where
  any-mem-cons :
      ⦃e : Eq A⦄ (p : A) (ps ds : List A)
      → any (λ d. mem d (p ∷ ps)) ds ≡ (mem p ds || any (λ d. mem d ps) ds)
  unfolding mem
  any-mem-cons p ps [] = refl
  any-mem-cons ⦃e⦄ p ps (d ∷ ds) =
      ground (arith, any-mem-cons p ps ds, e.beq_iff p d, e.beq_iff d p)

  any-mem-nil : ⦃e : Eq A⦄ (ds : List A) → any (λ d. mem d []) ds ≡ false
  unfolding mem
  any-mem-nil [] = refl
  any-mem-nil (d ∷ ds) = any-mem-nil ds

  -- Intersecting two lists finds a common value from either side.
  any-mem_comm : ⦃e : Eq A⦄ (ps ds : List A) → any (λ d. mem d ps) ds ≡ any (λ p. mem p ds) ps
  any-mem_comm [] ds = any-mem-nil ds
  any-mem_comm (p ∷ ps) ds = any-mem-cons p ps ds ∙ rw (any-mem_comm ps ds)

abbrev SlashFree : List Text → Type 0
SlashFree = All (λ d. mem b'/' d ≡ false)

SlashFree-of_any : (ds : List Text) → any (λ d. mem b'/' d) ds ≡ false → SlashFree ds
SlashFree-of_any [] h = tt
SlashFree-of_any (d ∷ ds) h = (ground arith, SlashFree-of_any ds (ground arith))

skip_dir_parts-SlashFree : SlashFree skip_dir_parts
unfolding mem
skip_dir_parts-SlashFree = SlashFree-of_any skip_dir_parts refl

any-contains-padded :
    (norm : Text) (ds : List Text)
    → SlashFree ds
    → any (λ d. contains (padded norm) (padded d)) ds ≡ any (λ d. mem d (split b'/' norm)) ds
any-contains-padded norm [] h = refl
any-contains-padded norm (d ∷ ds) h =
    rw (contains-split b'/' norm d h.0, any-contains-padded norm ds h.1)

skip_cases :
    (found again include_tests rest : Bool)
    → again ≡ found
    → (if found then true else if again then true else if include_tests then false else rest)
      ≡ (found || (not include_tests && rest))
skip_cases found again inc rest h = ground arith

-- A path is skipped exactly when one of its parts is a skipped directory or, unless tests are
-- included, it is a test path: the search for `/d/` in the padded path adds nothing.
pub is_skipped-parts :
    (filename lang : Text) (include_tests : Bool)
    → is_skipped filename lang include_tests ≡ (
        any (λ part. mem part skip_dir_parts) (split b'/' (normalized filename))
        || (not include_tests
            && is_test_path (normalized filename) (after_last b'/' (normalized filename)) lang))
unfolding is_skipped
is_skipped-parts filename lang inc =
    let norm : Text = normalized filename in
    skip_cases _ _ inc _ (
      any-contains-padded norm skip_dir_parts skip_dir_parts-SlashFree
      ∙ any-mem_comm (split b'/' norm) skip_dir_parts)

normalized-append :
    (dir rest : Text) → normalized (dir ++ b'/' ∷ rest) ≡ normalized dir ++ b'/' ∷ normalized rest
unfolding replace
normalized-append dir rest = map-append _ dir (b'/' ∷ rest)

found-append :
    (dir rest : Text)
    → any (λ part. mem part skip_dir_parts) (split b'/' (normalized (dir ++ b'/' ∷ rest))) ≡ (
        any (λ part. mem part skip_dir_parts) (split b'/' (normalized dir))
        || any (λ part. mem part skip_dir_parts) (split b'/' (normalized rest)))
found-append dir rest =
    rw (normalized-append, split-append)
      (any-append _ (split b'/' (normalized dir)) (split b'/' (normalized rest)))

or_cases : (a b c : Bool) → (a || false) ≡ true → ((a || b) || c) ≡ true
or_cases a b c h = ground arith

-- Everything below a directory that is skipped with tests included is skipped, for every language
-- and with tests included or not.
pub is_skipped_below :
    (dir rest lang lang' : Text) (include_tests : Bool)
    → is_skipped dir lang true ≡ true
    → is_skipped (dir ++ b'/' ∷ rest) lang' include_tests ≡ true
is_skipped_below dir rest lang lang' inc h =
    is_skipped-parts (dir ++ b'/' ∷ rest) lang' inc
    ∙ rw found-append (or_cases _ _ _ (sym (is_skipped-parts dir lang true) ∙ h))
