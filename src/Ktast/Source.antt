-- ===== src/Ktast/Source.antt =====
-- Kotlin sources as the two scanners of checkers/ktast_client.py should read them: a sequence of
-- code, comments and literals, with its text, the text that is left when comments and literals are
-- blanked, and the literals with their lines.
pub mod Masked
pub mod Literals
pub mod QuoteChar
use deslop.Prelude.{
  ℕ, ◌+◌, Bool, true, false, ◌&&◌, ◌||◌, not, List, [], ◌∷◌, ◌++◌, Text, codes, contains,
  starts_with, if◌then◌else◌, ◌==◌, nat_eq, take, count, mem, ◌≡◌, map, length, refl, arith,
  Bool-cases, inl, inr,
}
use deslop.Ktast.Blank.{space, blanked}
use deslop.Ktast.Literals.{StringLit, max_lit}

pub data Segment : Type 0 where
  -- Code without slashes and quotes, and a slash with the character behind it.
  plain : Text → Segment
  slash : ℕ → Segment
  line_comment block_comment : Text → Segment
  -- `"…"` and `"""…"""` by what they stand for, and `'c'` and `'\c'`.
  text raw : Text → Segment
  char escaped_char : ℕ → Segment

-- The body of a literal that stands for a text.
abbrev pub escaped : Text → Text
escaped [] = []
escaped (c ∷ v) =
    let rest = escaped v in if c == b'"' || c == b'\\' then b'\\' ∷ c ∷ rest else c ∷ rest

abbrev pub spaces : Text → Text
spaces = map (λ _. space)

abbrev pub blanks : Text → Text
blanks = map blanked

abbrev pub masked_body : Text → Text
masked_body [] = []
masked_body (c ∷ v) =
    let rest = masked_body v in
    if c == b'"' || c == b'\\' then space ∷ space ∷ rest else blanked c ∷ rest

unfoldable pub render : Segment → Text
render (plain t) = t
render (slash c) = b'/' ∷ c ∷ []
render (line_comment t) = b'/' ∷ b'/' ∷ (t ++ b'\n' ∷ [])
render (block_comment t) = b'/' ∷ b'*' ∷ (t ++ b'*' ∷ b'/' ∷ [])
render (text v) = b'"' ∷ (escaped v ++ b'"' ∷ [])
render (raw t) = b'"' ∷ b'"' ∷ b'"' ∷ (t ++ b'"' ∷ b'"' ∷ b'"' ∷ [])
render (char c) = b'\'' ∷ c ∷ b'\'' ∷ []
render (escaped_char c) = b'\'' ∷ b'\\' ∷ c ∷ b'\'' ∷ []

unfoldable pub masked : Segment → Text
masked (plain t) = t
masked (slash c) = b'/' ∷ c ∷ []
masked (line_comment t) = space ∷ space ∷ (spaces t ++ b'\n' ∷ [])
masked (block_comment t) = space ∷ space ∷ (blanks t ++ space ∷ space ∷ [])
masked (text v) = space ∷ (masked_body v ++ space ∷ [])
masked (raw t) = space ∷ space ∷ space ∷ (blanks t ++ space ∷ space ∷ space ∷ [])
masked (char c) = space ∷ space ∷ space ∷ []
masked (escaped_char c) = space ∷ space ∷ space ∷ space ∷ []

abbrev is_plain : ℕ → Bool
is_plain c = not (c == b'/' || c == b'"' || c == b'\'')

abbrev all_plain : Text → Bool
all_plain [] = true
all_plain (c ∷ t) = is_plain c && all_plain t

-- What a segment may hold before the text `rest`.
abbrev pub IsWellFormed : Segment → Text → Type 0
IsWellFormed (plain t) rest = all_plain t ≡ true
IsWellFormed (slash c) rest = (is_plain c && not (c == b'*')) ≡ true
IsWellFormed (line_comment t) rest = mem b'\n' t ≡ false
IsWellFormed (block_comment t) rest = contains (t ++ b'*' ∷ []) (codes "*/") ≡ false
IsWellFormed (text v) rest = starts_with rest (codes "\"") ≡ false
IsWellFormed (raw t) rest = contains (t ++ b'"' ∷ b'"' ∷ []) (codes "\"\"\"") ≡ false
IsWellFormed (char c) rest = (c == b'\'' || c == b'\\') ≡ false
IsWellFormed (escaped_char c) rest = Unit {0}

unfoldable pub render_all : List Segment → Text
render_all [] = []
render_all (g ∷ gs) = render g ++ render_all gs

unfoldable pub masked_all : List Segment → Text
masked_all [] = []
masked_all (g ∷ gs) = masked g ++ masked_all gs

abbrev pub IsSource : List Segment → Type 0
IsSource [] = Unit
IsSource (g ∷ gs) = IsWellFormed g (render_all gs) × IsSource gs

-- The literals, where the first segment begins at the given line.
unfoldable pub literals : ℕ → List Segment → List StringLit
literals line [] = []
literals line (text v ∷ gs) =
    record { line = line; value = take max_lit v }
    ∷ literals (line + count b'\n' (render (text v))) gs
literals line (raw t ∷ gs) =
    record { line = line; value = take max_lit t }
    ∷ literals (line + count b'\n' (render (raw t))) gs
literals line (g ∷ gs) = literals (line + count b'\n' (render g)) gs

abbrev pub is_char : Segment → Bool
is_char (char c) = true
is_char (escaped_char c) = true
is_char _ = false

-- The quote that opens a literal is not taken for the first of three.
pub escaped_not_raw :
    (v rest : Text)
    → starts_with rest (codes "\"") ≡ false
    → starts_with (escaped v ++ b'"' ∷ rest) (codes "\"\"") ≡ false
unfolding starts_with
escaped_not_raw [] rest h = ground arith
escaped_not_raw (c ∷ v) rest h = elim (Bool-cases (c == b'"' || c == b'\\')) [
  | inl special ↦ rw special
  | inr ordinary ↦ rw ordinary (ground arith)
]
