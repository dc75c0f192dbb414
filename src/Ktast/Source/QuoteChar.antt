-- ===== src/Ktast/Source/QuoteChar.antt =====
-- The literal scan of checkers/ktast_client.py knows no character literals: what it makes of the
-- character literal of a double quote.
use deslop.Prelude.{
  ℕ, suc, ◌+◌, true, false, [], ◌∷◌, ◌++◌, Text, nat_eq, ◌≡◌, arith, ap, ◌∙◌, append_assoc, mem,
  append-nil, length,
}
use deslop.Ktast.Literals.{code, string, step, scan, literal, extract_string_lits}
use deslop.Ktast.Source.{all_plain}
use deslop.Ktast.Source.Literals.{scan-plain}

module _ (src : Text) where
  scan_to_quote :
      (t rest buf : Text) (start i : ℕ)
      → mem b'"' t ≡ false
      → mem b'\\' t ≡ false
      → scan src (string start buf) 0 i (t ++ b'"' ∷ rest)
        ≡ literal src start (buf ++ t) ∷ scan src code 0 (i + length t + 1) rest
  unfolding scan step mem
  scan_to_quote [] rest buf start i q b = ground (arith, append-nil buf)
  scan_to_quote (c ∷ []) rest buf start i q b =
      ground
        (arith, scan_to_quote [] rest (buf ++ c ∷ []) start (suc i), append_assoc buf (c ∷ []) [])
  scan_to_quote (c ∷ d ∷ t) rest buf start i q b = ground (
    arith,
    scan_to_quote (d ∷ t) rest (buf ++ c ∷ []) start (suc i),
    append_assoc buf (c ∷ []) (d ∷ t),
  )

scan_open_end :
    (src : Text) (i j : ℕ) → i ≡ j → scan src code 0 i (b'"' ∷ []) ≡ literal src j [] ∷ []
unfolding scan step
scan_open_end src i j e = ap (λ k. literal src k [] ∷ []) e

mem_quote : (t : Text) → mem b'"' t ≡ false → mem b'"' (b'\'' ∷ t) ≡ false
unfolding mem
mem_quote t h = h

mem_backslash : (t : Text) → mem b'\\' t ≡ false → mem b'\\' (b'\'' ∷ t) ≡ false
unfolding mem
mem_backslash t h = h

abbrev quote_source : Text → Text → Text
quote_source t v = b'\'' ∷ b'"' ∷ b'\'' ∷ (t ++ b'"' ∷ (v ++ b'"' ∷ []))

-- After the character literal of a double quote `_extract_string_lits` takes the code up to the
-- next literal for a literal, misses that literal, and adds an empty one: with code `t` and a
-- literal `v` without quotes, slashes and backslashes as hypotheses, the source `'"' t "v"` gives
-- `'t` and the empty text.
pub extract_string_lits_quote_char :
    (t v : Text)
    → mem b'"' t ≡ false
    → mem b'\\' t ≡ false
    → all_plain v ≡ true
    → extract_string_lits (quote_source t v)
      ≡ literal (quote_source t v) 1 (b'\'' ∷ t)
        ∷ literal (quote_source t v) (length t + length v + 4) []
        ∷ []
unfolding extract_string_lits
extract_string_lits_quote_char t v q b p =
    let src : Text = quote_source t v in
    scan_to_quote src (b'\'' ∷ t) (v ++ b'"' ∷ []) [] 1 2 (mem_quote t q) (mem_backslash t b)
    ∙ ap (literal src 1 (b'\'' ∷ t) ∷◌)
        (scan-plain src v (b'"' ∷ []) _ p ∙ scan_open_end src _ _ (omega arith))
