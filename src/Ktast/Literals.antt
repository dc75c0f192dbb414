-- ===== src/Ktast/Literals.antt =====
-- `_extract_string_lits`, `_unescape` and `_line_of` of checkers/ktast_client.py. As in `Blank`, the
-- inner loops are the states of one scan; a loop inside a literal holds the index `start` where the
-- literal opened and the characters read so far.
use deslop.Prelude.{
  ℕ, zero, suc, ◌+◌, ◌&&◌, List, [], ◌∷◌, ◌++◌, Text, codes, starts_with, if◌then◌else◌, ◌==◌,
  nat_eq, take, count, Option, none, some,
}

-- `text.count("\n", 0, index) + 1`
unfoldable pub line_of : Text → ℕ → ℕ
line_of text index = count b'\n' (take index text) + 1

pub record StringLit : Type 0 where
  pub line : ℕ
  pub value : Text

abbrev pub max_lit : ℕ
max_lit = 200

-- `_unescape` of the pair `\c`
unfoldable pub unescape : ℕ → ℕ
unescape c =
    if c == b'n' then b'\n' else if c == b't' then b'\t' else if c == b'r' then b'\r' else c

pub data Reading : Type 0 where
  code line_comment block_comment : Reading
  raw_string string : ℕ → Text → Reading

pub record Round : Type 0 where
  pub reading : Reading
  pub skip : ℕ
  -- The literal that ends in this round.
  pub lit : Option (ℕ × Text)

abbrev go_on : Reading → ℕ → Round
go_on r k = record { reading = r; skip = k; lit = none }

abbrev close : ℕ → Text → ℕ → Round
close start buf k = record { reading = code; skip = k; lit = some (start, buf) }

in_code : ℕ → ℕ → Text → Round
in_code i c s =
    if c == b'/' && starts_with s (codes "/")
    then go_on line_comment 0
    else if c == b'/' && starts_with s (codes "*")
    then go_on block_comment 1
    else if c == b'"' && starts_with s (codes "\"\"")
    then go_on (raw_string i []) 2
    else if c == b'"'
    then go_on (string i []) 0
    else go_on code 0

in_string : ℕ → Text → ℕ → Text → Round
in_string start buf c [] =
    if c == b'"' then close start buf 0 else go_on (string start (buf ++ c ∷ [])) 0
in_string start buf c (d ∷ s) =
    if c == b'"'
    then close start buf 0
    else if c == b'\\'
    then go_on (string start (buf ++ unescape d ∷ [])) 1
    else go_on (string start (buf ++ c ∷ [])) 0

unfoldable pub step : Reading → ℕ → ℕ → Text → Round
unfolding in_code in_string starts_with
step code i c s = in_code i c s
step line_comment i c s = if c == b'\n' then in_code i c s else go_on line_comment 0
step block_comment i c s =
    if c == b'*' && starts_with s (codes "/") then go_on code 1 else go_on block_comment 0
step (raw_string start buf) i c s =
    if c == b'"' && starts_with s (codes "\"\"")
    then close start buf 2
    else go_on (raw_string start (buf ++ c ∷ [])) 0
step (string start buf) i c s = in_string start buf c s

module _ (src : Text) where
  abbrev pub literal : ℕ → Text → StringLit
  literal start buf = record { line = line_of src start; value = take max_lit buf }

  abbrev pub emit : Option (ℕ × Text) → List StringLit → List StringLit
  emit none out = out
  emit (some (start, buf)) out = literal start buf ∷ out

  -- At the end of the text an open literal is put out too.
  abbrev pub finish : Reading → List StringLit
  finish (raw_string start buf) = literal start buf ∷ []
  finish (string start buf) = literal start buf ∷ []
  finish _ = []

  -- The scan of the text behind index `i`.
  unfoldable pub scan : Reading → ℕ → ℕ → Text → List StringLit
  scan r k i [] = finish r
  scan r (suc k) i (c ∷ s) = scan r k (suc i) s
  scan r zero i (c ∷ s) = let t = step r i c s in emit t.lit (scan t.reading t.skip (suc i) s)

unfoldable pub extract_string_lits : Text → List StringLit
unfolding scan step line_of unescape
extract_string_lits src = scan src code 0 0 src
