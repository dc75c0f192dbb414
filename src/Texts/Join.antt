-- ===== src/Texts/Join.antt =====
-- `str.join`
use deslop.Prelude.{List, [], ◌∷◌, ◌++◌, Text}

abbrev onto_joined : Text → Text → List Text → Text → Text
onto_joined sep w [] rest = w
onto_joined sep w (_ ∷ _) rest = w ++ sep ++ rest

unfoldable pub join : Text → List Text → Text
join sep [] = []
join sep (w ∷ ws) = onto_joined sep w ws (join sep ws)
