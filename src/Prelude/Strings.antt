-- ===== src/Prelude/Strings.antt =====
-- Python's `str` as the list of its code points, with the methods that the program calls.
use Prim.Native.Char.{code}
use Prim.Native.Nat.{ℕ, ◌+◌}
use Prim.Native.String.{String}
use mathlib.Core.Bool.{Bool, true, false, ◌||◌, ◌&&◌}
use mathlib.Core.List.{List, [], ◌∷◌, map}
use deslop.Prelude.Tests.{if◌then◌else◌}
use deslop.Prelude.Equality.{◌==◌, nat_eq, list_eq, list_beq}
use deslop.Prelude.Lists.{get_last_or}

abbrev pub Text : Type 0
Text = List ℕ

-- A literal.
abbrev pub codes : String → Text
codes String.[] = []
codes (String.◌∷◌ c s) = code c ∷ codes s

-- `s.startswith(p)`
unfoldable pub starts_with : Text → Text → Bool
starts_with s [] = true
starts_with [] (_ ∷ _) = false
starts_with (c ∷ s) (d ∷ p) = (c == d) && starts_with s p

-- `s.endswith(p)`
unfoldable pub ends_with : Text → Text → Bool
unfolding list_beq
ends_with [] p = [] == p
ends_with (c ∷ s) p = ((c ∷ s) == p) || ends_with s p

-- `p in s`
unfoldable pub contains : Text → Text → Bool
unfolding starts_with
contains [] p = starts_with [] p
contains (c ∷ s) p = starts_with (c ∷ s) p || contains s p

-- `s.split(c)`, for a separator of one character
abbrev pub onto_first : ℕ → List Text → List Text
onto_first c [] = (c ∷ []) ∷ []
onto_first c (w ∷ ws) = (c ∷ w) ∷ ws

unfoldable pub split : ℕ → Text → List Text
split sep [] = [] ∷ []
split sep (c ∷ s) = let rest = split sep s in if c == sep then [] ∷ rest else onto_first c rest

-- `s.rsplit(c, 1)[-1]`
unfoldable pub after_last : ℕ → Text → Text
unfolding split
after_last sep s = get_last_or [] (split sep s)

-- `s.replace(a, b)`, for two characters
unfoldable pub replace : ℕ → ℕ → Text → Text
replace a b s = map (λ c. if c == a then b else c) s

-- `s.count(c)`, for one character
unfoldable pub count : ℕ → Text → ℕ
count a [] = 0
count a (c ∷ s) = (if c == a then 1 else 0) + count a s
