-- ===== src/Checkers/Run/Inventory.antt =====
-- The inventory of a repository lists each source once, also where several patterns match it.
use deslop.Prelude.{
  Bool, true, false, List, [], ◌∷◌, ◌++◌, Text, mem, map, nat_eq, list_eq, ◌≡◌, arith, Bool-cases,
  inl, inr, Distinct, mem-append, ◌∙◌, list_beq_iff, mem-head, mem-tail,
}
use mathlib.Core.List.{map-append}
use deslop.Checkers.Run.{
  Entry, Repo, out_of_scope, pattern_sources, inventory_sources, iter_sources,
}
use deslop.Checkers.Common.{lang_globs}

abbrev pub rels : List Entry → List Text
rels = map (λ e. e.rel)

-- Every value of the first list is one of the second, or none is.
abbrev Within : List Text → List Text → Type 0
Within xs ys = (r : Text) → mem r xs ≡ true → mem r ys ≡ true

abbrev Apart : List Text → List Text → Type 0
Apart xs ys = (r : Text) → mem r xs ≡ true → mem r ys ≡ false

Distinct-append :
    (xs ys : List Text) → Distinct xs → Distinct ys → Apart xs ys → Distinct (xs ++ ys)
unfolding mem
Distinct-append [] ys d d' h = d'
Distinct-append (x ∷ xs) ys (fresh, d) d' h = (
  mem-append x xs ys ∙ ground (arith, h x (mem-head x xs)),
  Distinct-append xs ys d d' (λ r listed. h r (mem-tail r x xs listed)),
)

not_true : {b : Bool} → b ≡ true → b ≡ false → ⊥
not_true h k = cc

Apart-of_Within : (xs ys zs : List Text) → Within xs zs → Apart ys zs → Apart xs ys
Apart-of_Within xs ys zs w a r listed = elim (Bool-cases (mem r ys)) [
  | inl both ↦ absurd (not_true (w r listed) (a r both))
  | inr absent ↦ absent
]

Apart-mono : (ys zs seen : List Text) → Apart ys zs → Within seen zs → Apart ys seen
Apart-mono ys zs seen a w r listed = elim (Bool-cases (mem r seen)) [
  | inl old ↦ absurd (not_true (w r old) (a r listed))
  | inr new ↦ new
]

Apart-append : (xs ys seen : List Text) → Apart xs seen → Apart ys seen → Apart (xs ++ ys) seen
Apart-append xs ys seen a b r listed = ground (arith, mem-append r xs ys, a r, b r)

-- The sources that one pattern adds, and the paths seen before and after.
record Adds (seen : List Text) (seen' : List Text) (out : List Entry) : Type 0 where
  distinct : Distinct (rels out)
  fresh : Apart (rels out) seen
  kept : Within seen seen'
  added : Within (rels out) seen'

Adds-nil : (seen : List Text) → Adds seen seen []
unfolding mem
Adds-nil seen = record { distinct = tt; fresh = λ r h. cc; kept = λ r h. h; added = λ r h. cc }

Adds-seen :
    (a : Text) {seen seen' : List Text} {out : List Entry}
    → Adds (a ∷ seen) seen' out
    → Adds seen seen' out
unfolding mem
Adds-seen a {seen} {seen'} {out} h = record {
  distinct = h.distinct;
  fresh = λ r listed. ground (arith, h.fresh r listed);
  kept = λ r listed. h.kept r (mem-tail r a seen listed);
  added = h.added;
}

Adds-cons :
    (e : Entry) {seen seen' : List Text} {out : List Entry}
    → mem e.rel seen ≡ false
    → Adds (e.rel ∷ seen) seen' out
    → Adds seen seen' (e ∷ out)
unfolding mem
Adds-cons e {seen} {seen'} {out} new h = record {
  distinct = (not_listed, h.distinct);
  fresh = λ r listed. ground (arith, list_beq_iff e.rel r, h.fresh r);
  kept = λ r listed. h.kept r (mem-tail r e.rel seen listed);
  added = λ r listed.
      ground
        (arith, list_beq_iff e.rel r, h.added r, h.kept r, mem-head r seen, mem-head e.rel seen);
}
  where
    not_listed : mem e.rel (rels out) ≡ false
    not_listed = elim (Bool-cases (mem e.rel (rels out))) [
      | inl listed ↦ absurd (not_true (mem-head e.rel seen) (h.fresh e.rel listed))
      | inr absent ↦ absent
    ]

module _ (repo : Repo) (lang : Text) where
  pattern_sources-Adds :
      (es : List Entry) (seen : List Text)
      → Adds seen (pattern_sources repo lang seen es).0 (pattern_sources repo lang seen es).1
  unfolding pattern_sources
  pattern_sources-Adds [] seen = Adds-nil seen
  pattern_sources-Adds (e ∷ es) seen = elim (Bool-cases (mem e.rel seen)) [
    | inl again ↦ rw again (pattern_sources-Adds es seen)
    | inr new ↦ rw new (elim (Bool-cases (out_of_scope lang e.rel)) [
      | inl out ↦ rw out (Adds-seen e.rel (pattern_sources-Adds es (e.rel ∷ seen)))
      | inr inside ↦ rw inside (Adds-cons e new (pattern_sources-Adds es (e.rel ∷ seen)))
    ])
  ]

  inventory_sources-Distinct :
      (suffixes seen : List Text)
      → Distinct (rels (inventory_sources repo lang seen suffixes))
        × Apart (rels (inventory_sources repo lang seen suffixes)) seen
  unfolding inventory_sources mem
  inventory_sources-Distinct [] seen = (tt, λ r h. cc)
  inventory_sources-Distinct (suffix ∷ suffixes) seen =
      let found = pattern_sources repo lang seen (repo.rglob suffix) in
      let a = pattern_sources-Adds (repo.rglob suffix) seen in
      let (d, apart) = inventory_sources-Distinct suffixes found.0 in
      let others : List Entry = inventory_sources repo lang found.0 suffixes in
      let joined : rels (found.1 ++ others) ≡ rels found.1 ++ rels others =
        map-append _ found.1 others in
      (
        rw joined (
            Distinct-append (rels found.1) (rels others) a.distinct d
              (Apart-of_Within (rels found.1) (rels others) found.0 a.added apart)),
        rw joined (
            Apart-append (rels found.1) (rels others) seen a.fresh
              (Apart-mono (rels others) found.0 seen apart a.kept)),
      )

  -- Without changed files `iter_sources` yields no path twice.
  pub iter_sources-Distinct : Distinct (rels (iter_sources repo lang []))
  unfolding iter_sources
  iter_sources-Distinct = (inventory_sources-Distinct (lang_globs lang) []).0
