-- ===== src/Check/Coverage/Laws.antt =====
-- The two lists of uncovered frameworks of scripts/check.py agree.
use deslop.Prelude.{
  Bool, true, ◌||◌, not, List, [], ◌∷◌, map, Text, some, any, keep, mem, fromkeys, ◌==◌, nat_eq,
  list_eq, ◌≡◌, refl, ◌∙◌, sym, ap, All,
}
use deslop.Packs.{Pack}
use deslop.Texts.Order.{sorted_by, any-sorted_by}
use deslop.Check.Coverage.{
  CoverageInfo, required_of, is_java, uncovered, coverage_of, coverage_info, uncovered_pack,
}

mem-map : (a : Text) (f : Text → Text) (xs : List Text) → mem a (map f xs) ≡ any (λ x. f x == a) xs
unfolding mem
mem-map a f [] = refl
mem-map a f (x ∷ xs) = ap ((f x == a) ||◌) (mem-map a f xs)

keep-ext : (p q : Text → Bool) (xs : List Text) → ((x : Text) → p x ≡ q x) → keep p xs ≡ keep q xs
keep-ext p q [] h = refl
keep-ext p q (x ∷ xs) h = rw (h x, keep-ext p q xs h) refl

-- Sorting the detected frameworks does not change which names are uncovered.
uncovered-sorted_by :
    (lower : Text → Text) (detected names : List Text)
    → uncovered lower (sorted_by lower detected) names ≡ uncovered lower detected names
uncovered-sorted_by lower detected names = keep-ext _ _ names (λ x. ap not (
    mem-map (lower x) lower (sorted_by lower detected)
    ∙ any-sorted_by lower (λ y. lower y == lower x) detected
    ∙ sym (mem-map (lower x) lower detected)))

keep-All : (packs : List Pack) → All (λ p. is_java p ≡ true) packs → keep is_java packs ≡ packs
keep-All [] h = refl
keep-All (p ∷ packs) h = rw (h.0, keep-All packs h.1) refl

-- With Java packs alone, the report's `uncovered_pack_frameworks` are the `uncovered_frameworks` of
-- the coverage that `run_check` returns.
pub uncovered_pack-coverage_of :
    (lower : Text → Text) (detected : List Text) (p : Pack) (packs : List Pack)
    (selected : List Text)
    → All (λ q. is_java q ≡ true) (p ∷ packs)
    → (c : CoverageInfo) × (coverage_of lower detected (p ∷ packs) selected ≡ some c)
      × (uncovered_pack lower
            (coverage_of lower detected (p ∷ packs) selected)
            (fromkeys (required_of (p ∷ packs)))
          ≡ c.uncovered_frameworks)
unfolding coverage_of
uncovered_pack-coverage_of lower detected p packs selected h = (
  coverage_info lower detected (p ∷ packs) selected,
  rw h.0 refl,
  rw h.0 (
      uncovered-sorted_by lower detected (fromkeys (required_of (p ∷ packs)))
      ∙ ap (λ ps. uncovered lower detected (fromkeys (required_of (p ∷ ps))))
          (sym (keep-All packs h.1))),
)
