-- ===== src/Texts/Strip.antt =====
-- `str.strip` and `str.isspace` of one character.
use deslop.Prelude.{ℕ, Bool, ◌||◌, ◌&&◌, [], ◌∷◌, Text, if◌then◌else◌, mem, ◌==◌, nat_eq, leb}

abbrev between : ℕ → ℕ → ℕ → Bool
between lo hi c = leb lo c && leb c hi

unfoldable pub is_space : ℕ → Bool
is_space c =
    between 9 13 c
    || (between 28 32 c
        || (c == 133
            || (c == 160
                || (c == 5760
                    || (between 8192 8202 c
                        || (c == 8232
                            || (c == 8233 || (c == 8239 || (c == 8287 || c == 12288)))))))))

unfoldable pub lstrip : Text → Text
lstrip [] = []
lstrip (c ∷ s) = let rest = lstrip s in if is_space c then rest else c ∷ s

abbrev onto_stripped : ℕ → Text → Text
onto_stripped c [] = if is_space c then [] else c ∷ []
onto_stripped c (d ∷ s) = c ∷ d ∷ s

unfoldable pub rstrip : Text → Text
rstrip [] = []
rstrip (c ∷ s) = onto_stripped c (rstrip s)

unfoldable pub strip : Text → Text
unfolding lstrip rstrip is_space
strip s = rstrip (lstrip s)

-- `s.strip(chars)`
abbrev onto_kept : Text → ℕ → Text → Text
onto_kept chars c [] = if mem c chars then [] else c ∷ []
onto_kept chars c (d ∷ s) = c ∷ d ∷ s

unfoldable pub rstrip_chars : Text → Text → Text
rstrip_chars chars [] = []
rstrip_chars chars (c ∷ s) = onto_kept chars c (rstrip_chars chars s)

unfoldable pub lstrip_chars : Text → Text → Text
lstrip_chars chars [] = []
lstrip_chars chars (c ∷ s) = let rest = lstrip_chars chars s in if mem c chars then rest else c ∷ s

unfoldable pub strip_chars : Text → Text → Text
unfolding lstrip_chars rstrip_chars
strip_chars chars s = rstrip_chars chars (lstrip_chars chars s)
