-- ===== src/Checkers/Run/Sources.antt =====
-- The sources that a run reads.
use deslop.Prelude.{
  false, List, [], ◌∷◌, Text, Option, none, some, mem, nat_eq, list_eq, ◌≡◌, All, All-append,
  Bool-cases, inl, inr,
}
use deslop.Checkers.Run.{
  Entry, Repo, out_of_scope, located, changed_sources, pattern_sources, inventory_sources,
  iter_sources, name_matches_lang,
}
use deslop.Checkers.Common.{lang_globs}

abbrev pub InScope : Text → Entry → Type 0
InScope lang e = out_of_scope lang e.rel ≡ false

located-InScope :
    (lang : Text) (o : Option Entry) (rest : List Entry)
    → All (InScope lang) rest
    → All (InScope lang) (located lang o rest)
located-InScope lang none rest h = h
located-InScope lang (some e) rest h = elim (Bool-cases (out_of_scope lang e.rel)) [
  | inl out ↦ rw out h
  | inr inside ↦ rw inside (elim (Bool-cases (name_matches_lang e.name lang)) [
    | inl fits ↦ rw fits (inside, h)
    | inr other ↦ rw other h
  ])
]

module _ (repo : Repo) (lang : Text) where
  changed_sources-InScope : (raws : List Text) → All (InScope lang) (changed_sources repo lang raws)
  unfolding changed_sources
  changed_sources-InScope [] = tt
  changed_sources-InScope (raw ∷ raws) =
      located-InScope lang (repo.locate raw) _ (changed_sources-InScope raws)

  pattern_sources-InScope :
      (es : List Entry) (seen : List Text)
      → All (InScope lang) (pattern_sources repo lang seen es).1
  unfolding pattern_sources
  pattern_sources-InScope [] seen = tt
  pattern_sources-InScope (e ∷ es) seen = elim (Bool-cases (mem e.rel seen)) [
    | inl again ↦ rw again (pattern_sources-InScope es seen)
    | inr new ↦ rw new (elim (Bool-cases (out_of_scope lang e.rel)) [
      | inl out ↦ rw out (pattern_sources-InScope es (e.rel ∷ seen))
      | inr inside ↦ rw inside (inside, pattern_sources-InScope es (e.rel ∷ seen))
    ])
  ]

  inventory_sources-InScope :
      (suffixes seen : List Text) → All (InScope lang) (inventory_sources repo lang seen suffixes)
  unfolding inventory_sources
  inventory_sources-InScope [] seen = tt
  inventory_sources-InScope (suffix ∷ suffixes) seen =
      All-append (InScope lang) _ _ (pattern_sources-InScope (repo.rglob suffix) seen)
        (inventory_sources-InScope suffixes _)

  -- No source that `iter_sources` yields is skipped or belongs to a test corpus, in the inventory
  -- and among changed files.
  pub iter_sources-InScope :
      (changed_files : List Text) → All (InScope lang) (iter_sources repo lang changed_files)
  unfolding iter_sources
  iter_sources-InScope [] = inventory_sources-InScope (lang_globs lang) []
  iter_sources-InScope (raw ∷ raws) = changed_sources-InScope (raw ∷ raws)
