-- ===== src/Install/Trees.antt =====
-- A test for file trees.
use deslop.Prelude.{
  Bool, true, false, not, List, [], ◌∷◌, ◌++◌, Text, lookup, any, map, any-map, nat_eq, list_eq,
  list_beq, list_beq_iff, ◌≡◌, ◌≢◌, refl, arith, ◌||◌, Bool-cases, inl, inr,
}
use deslop.Install.Files.{FileTree, exists}
use deslop.Install.Copies.{IsTree}

-- The path and those that lead to it.
abbrev pub prefixes : List Text → List (List Text)
prefixes [] = [] ∷ []
prefixes (a ∷ p) = [] ∷ map (a ∷◌) (prefixes p)

abbrev pub lacks : FileTree → List Text → Bool
lacks fs d = not (exists d fs)

any-prefixes :
    (q : List Text → Bool) (d r : List Text) → q d ≡ true → any q (prefixes (d ++ r)) ≡ true
any-prefixes q [] [] h = rw h refl
any-prefixes q [] (a ∷ r) h = rw h refl
any-prefixes q (a ∷ d) r h =
    rw (any-map q (a ∷◌) (prefixes (d ++ r)))
      (or_right (q []) (any-prefixes (λ p. q (a ∷ p)) d r h))
  where
    or_right : (b : Bool) {c : Bool} → c ≡ true → (b || c) ≡ true
    or_right b h = ground arith

module _ (fs : FileTree) (d r : List Text) (missing : exists d fs ≡ false) where
  absent :
      (es : FileTree)
      → any (λ e. any (lacks fs) (prefixes e.0)) es ≡ false
      → exists (d ++ r) es ≡ false
  unfolding lookup
  absent [] h = refl
  absent ((p, n) ∷ es) h = elim (Bool-cases (list_beq p (d ++ r))) [
    | inl same ↦ absurd (
        both (any (lacks fs) (prefixes p)) _
          (rw ((list_beq_iff p (d ++ r)).0 same) (any-prefixes (lacks fs) d r (rw missing refl))) h)
    | inr other ↦ rw other (absent es (or_false (any (lacks fs) (prefixes p)) h))
  ]
    where
      or_false : (b : Bool) {c : Bool} → (b || c) ≡ false → c ≡ false
      or_false b h = ground arith

      both : (b c : Bool) → b ≡ true → (b || c) ≢ false
      both b c e f = ground arith

-- Files form a tree where each of their paths has the paths that lead to it.
pub closed-IsTree :
    (fs : FileTree) → any (λ e. any (lacks fs) (prefixes e.0)) fs ≡ false → IsTree fs
closed-IsTree fs h d r missing = absent fs d r missing fs h
