-- ===== src/Ktast/Annotations.antt =====
-- `_annotations_before` of checkers/ktast_client.py, which reads the lines above a declaration upwards.
pub mod Laws
use deslop.Prelude.{
  ℕ, zero, suc, ◌+◌, ◌-◌, List, [], ◌∷◌, ◌++◌, Text, take, drop, starts_with, if◌then◌else◌, ◌==◌,
  nat_eq, Option, none, some, Bool, true, false,
}
use deslop.Texts.Strip.{strip}

abbrev pub or_here : ℕ → ℕ → Option ℕ → Option ℕ
or_here c sep none = if c == sep then some 0 else none
or_here c sep (some i) = some (suc i)

-- `s.rfind(sep)`, with none for -1
unfoldable pub rfind : ℕ → Text → Option ℕ
rfind sep [] = none
rfind sep (c ∷ s) = or_here c sep (rfind sep s)

-- `rfind(…) + 1`
abbrev pub behind : Option ℕ → ℕ
behind none = 0
behind (some i) = suc i

-- `text[i:j]`
abbrev pub slice : ℕ → ℕ → Text → Text
slice i j text = drop i (take j text)

-- What a round of the loop does: end with the annotations found, or go on from a position.
pub data Round : Type 0 where
  ended : List Text → Round
  again : ℕ → List Text → Round

-- The two exits of a round where `prev_nl` is -1, and the round that goes on at it.
abbrev pub go_on : Option ℕ → List Text → Round
go_on none found = ended found
go_on (some prev_nl) found = again prev_nl found

-- `found = anns + found`, unless there are none or the line begins otherwise
abbrev pub with_line : Option ℕ → Text → List Text → List Text → Round
with_line prev_nl line [] found = ended found
with_line prev_nl line (ann ∷ anns) found =
    if starts_with line (b'@' ∷ []) then go_on prev_nl (ann ∷ anns ++ found) else ended found

abbrev pub read_line : (Text → List Text) → Option ℕ → Text → List Text → Round
read_line find_annotations prev_nl [] found = go_on prev_nl found
read_line find_annotations prev_nl (c ∷ line) found =
    with_line prev_nl (c ∷ line) (find_annotations (c ∷ line)) found

abbrev pub follow : (ℕ → List Text → List Text) → Round → List Text
follow go (ended found) = found
follow go (again pos found) = go pos found

-- `find_annotations` is `_ANN_RE.findall`.
module _ (find_annotations : Text → List Text) (text : Text) where
  -- The body of the loop, from a position that is not 0.
  unfoldable pub round : ℕ → List Text → Round
  unfolding rfind strip starts_with
  round zero found = ended found
  round (suc pos) found =
      let prev_nl = rfind b'\n' (take pos text) in
      read_line find_annotations prev_nl (strip (slice (behind prev_nl) (suc pos) text)) found

  -- The loop with fuel, of which each round uses one.
  unfoldable pub loop : ℕ → ℕ → List Text → List Text
  unfolding round
  loop zero pos found = found
  loop (suc fuel) pos found = follow (loop fuel) (round pos found)

  -- A position is one more round's fuel at most.
  unfoldable pub annotations_above : ℕ → List Text → List Text
  unfolding loop
  annotations_above pos found = loop pos pos found

  unfoldable pub annotations_before : ℕ → List Text
  unfolding annotations_above rfind
  annotations_before index =
      let line_start = behind (rfind b'\n' (take index text)) in
      annotations_above line_start (find_annotations (slice line_start index text))
