-- ===== src/Ktast/Blank.antt =====
-- `_blank_strings_and_comments` of checkers/ktast_client.py. Each inner `while` loop of the source
-- is a state of the scan; `step` reads the character at `i` with the text behind it, and says which
-- loop goes on, how many further characters the same round consumes, and what is put out.
pub mod Laws
use deslop.Prelude.{
  ℕ, zero, suc, Bool, true, false, ◌&&◌, not, List, [], ◌∷◌, Text, codes, starts_with,
  if◌then◌else◌, ◌==◌, nat_eq,
}

pub data Loop : Type 0 where
  code line_comment block_comment raw_string string char : Loop

abbrev pub space : ℕ
space = b' '

-- `"\n" if src[i] == "\n" else " "`
abbrev pub blanked : ℕ → ℕ
blanked c = if c == b'\n' then b'\n' else space

-- `i + 1 < n`
abbrev pub is_cons : Text → Bool
is_cons [] = false
is_cons (_ ∷ _) = true

pub record Round : Type 0 where
  pub loop : Loop
  pub skip : ℕ
  pub out : ℕ

abbrev round : Loop → ℕ → ℕ → Round
round l k o = record { loop = l; skip = k; out = o }

in_code : ℕ → Text → Round
in_code c s =
    if c == b'/' && starts_with s (codes "/")
    then round line_comment 0 space
    else if c == b'/' && starts_with s (codes "*")
    then round block_comment 1 space
    else if c == b'"' && starts_with s (codes "\"\"")
    then round raw_string 2 space
    else if c == b'"'
    then round string 0 space
    else if c == b'\''
    then round char 0 space
    else round code 0 c

unfoldable pub step : Loop → ℕ → Text → Round
unfolding in_code starts_with
step code c s = in_code c s
step line_comment c s = if c == b'\n' then in_code c s else round line_comment 0 space
step block_comment c s =
    if c == b'*' && starts_with s (codes "/")
    then round code 1 space
    else round block_comment 0 (blanked c)
step raw_string c s =
    if c == b'"' && starts_with s (codes "\"\"")
    then round code 2 space
    else round raw_string 0 (blanked c)
step string c s =
    if c == b'"'
    then round code 0 space
    else if c == b'\\' && is_cons s
    then round string 1 space
    else round string 0 (blanked c)
step char c s =
    if c == b'\''
    then round code 0 space
    else if c == b'\\' && is_cons s
    then round char 1 space
    else round char 0 space

-- The scan from a state, with the characters that the last round has still to consume.
unfoldable pub scan : Loop → ℕ → Text → Text
scan l k [] = []
scan l (suc k) (c ∷ s) = space ∷ scan l k s
scan l zero (c ∷ s) = let r = step l c s in r.out ∷ scan r.loop r.skip s

unfoldable pub blank_strings_and_comments : Text → Text
unfolding scan step
blank_strings_and_comments src = scan code 0 src
