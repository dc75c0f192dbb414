-- ===== src/Ktast/Braces.antt =====
-- `_match_brace` and `_first_brace_after` of checkers/ktast_client.py. A loop over an index is a
-- recursion on the text behind it, with the index kept.
pub mod Laws
use deslop.Prelude.{
  ℕ, zero, suc, ◌+◌, ◌-◌, Bool, true, false, ◌&&◌, List, [], ◌∷◌, Text, if◌then◌else◌, ◌==◌, nat_eq,
  drop, Option, none, some,
}

-- The loop from index `i`. The depth is one or more behind the brace that it starts at.
unfoldable pub match_loop : ℕ → ℕ → Text → Option ℕ
match_loop depth i [] = none
match_loop depth i (c ∷ s) =
    let deeper = match_loop (depth + 1) (suc i) s in
    let up = match_loop (depth - 1) (suc i) s in
    let on = match_loop depth (suc i) s in
    if c == b'{' then deeper else if c == b'}' then (if depth - 1 == 0 then some i else up) else on

abbrev pub at_brace : ℕ → Text → Option ℕ
at_brace i [] = none
at_brace i (c ∷ s) = if c == b'{' then match_loop 0 i (c ∷ s) else none

-- The test on `text[open_idx]` and the loop read the text behind the index.
unfoldable pub match_brace : Text → ℕ → Option ℕ
unfolding match_loop
match_brace text open_idx = at_brace open_idx (drop open_idx text)

-- The loop while `i < limit and i < len(text)`, with `limit - i` rounds left at most.
unfoldable pub first_brace_loop : ℕ → ℕ → ℕ → Text → Option ℕ
first_brace_loop zero depth i s = none
first_brace_loop (suc n) depth i [] = none
first_brace_loop (suc n) depth i (c ∷ s) =
    let deeper = first_brace_loop n (depth + 1) (suc i) s in
    let up = first_brace_loop n (depth - 1) (suc i) s in
    let on = first_brace_loop n depth (suc i) s in
    if c == b'('
    then deeper
    else if c == b')'
    then up
    else if c == b'{' && depth == 0
    then some i
    else if c == b'=' && depth == 0
    then none
    else on

unfoldable pub first_brace_after : Text → ℕ → ℕ → Option ℕ
unfolding first_brace_loop
first_brace_after text start limit = first_brace_loop (limit - start) 0 start (drop start text)
