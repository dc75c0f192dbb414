-- ===== src/Ktast/Source/Masked.antt =====
-- Blanking a well-formed source.
use deslop.Prelude.{
  true, false, List, [], ◌∷◌, ◌++◌, Text, codes, starts_with, nat_eq, ◌≡◌, refl, arith, ap, ◌∙◌,
  append_assoc, mem, contains,
}
use deslop.Ktast.Blank.{
  code, line_comment, block_comment, raw_string, string, space, step, scan,
  blank_strings_and_comments,
}
use deslop.Ktast.Source.{
  Segment, escaped, spaces, blanks, masked_body, render, masked, IsWellFormed, render_all,
  masked_all, IsSource, all_plain, escaped_not_raw,
}

scan-plain : (t rest : Text) → all_plain t ≡ true → scan code 0 (t ++ rest) ≡ t ++ scan code 0 rest
unfolding scan step
scan-plain [] rest h = refl
scan-plain (c ∷ t) rest h = ground (arith, scan-plain t rest)

scan-line_comment :
    (t rest : Text)
    → mem b'\n' t ≡ false
    → scan line_comment 0 (t ++ b'\n' ∷ rest) ≡ spaces t ++ b'\n' ∷ scan code 0 rest
unfolding scan step mem
scan-line_comment [] rest h = refl
scan-line_comment (c ∷ t) rest h = ground (arith, scan-line_comment t rest)

scan-block_comment :
    (t rest : Text)
    → contains (t ++ b'*' ∷ []) (codes "*/") ≡ false
    → scan block_comment 0 (t ++ b'*' ∷ b'/' ∷ rest) ≡ blanks t ++ space ∷ space ∷ scan code 0 rest
unfolding scan step contains starts_with
scan-block_comment [] rest h = refl
scan-block_comment (c ∷ []) rest h = ground (arith, scan-block_comment [] rest)
scan-block_comment (c ∷ d ∷ t) rest h = ground (arith, scan-block_comment (d ∷ t) rest)

scan-text :
    (v rest : Text)
    → scan string 0 (escaped v ++ b'"' ∷ rest) ≡ masked_body v ++ space ∷ scan code 0 rest
unfolding scan step
scan-text [] rest = refl
scan-text (c ∷ v) rest = ground (arith, scan-text v rest)

scan-raw :
    (t rest : Text)
    → contains (t ++ b'"' ∷ b'"' ∷ []) (codes "\"\"\"") ≡ false
    → scan raw_string 0 (t ++ b'"' ∷ b'"' ∷ b'"' ∷ rest)
      ≡ blanks t ++ space ∷ space ∷ space ∷ scan code 0 rest
unfolding scan step contains starts_with
scan-raw [] rest h = refl
scan-raw (c ∷ []) rest h = ground (arith, scan-raw [] rest)
scan-raw (c ∷ d ∷ []) rest h = ground (arith, scan-raw (d ∷ []) rest)
scan-raw (c ∷ d ∷ e ∷ t) rest h = ground (arith, scan-raw (d ∷ e ∷ t) rest)

scan_quote :
    (s : Text)
    → starts_with s (codes "\"\"") ≡ false
    → scan code 0 (b'"' ∷ s) ≡ space ∷ scan string 0 s
unfolding scan step
scan_quote s h = rw h

-- One segment, with any text behind it that the segment allows.
scan-render :
    (g : Segment) (rest : Text)
    → IsWellFormed g rest
    → scan code 0 (render g ++ rest) ≡ masked g ++ scan code 0 rest
unfolding scan step render masked starts_with
scan-render (Segment.plain t) rest h = scan-plain t rest h
scan-render (Segment.slash c) rest h = ground arith
scan-render (Segment.line_comment t) rest h = simp append_assoc (rw (scan-line_comment t rest h))
scan-render (Segment.block_comment t) rest h = simp append_assoc (rw (scan-block_comment t rest h))
scan-render (Segment.text v) rest h = simp append_assoc (
    scan_quote (escaped v ++ b'"' ∷ rest) (escaped_not_raw v rest h)
    ∙ ap (◌∷◌ space) (scan-text v rest))
scan-render (Segment.raw t) rest h = simp append_assoc (rw (scan-raw t rest h))
scan-render (Segment.char c) rest h = ground arith
scan-render (Segment.escaped_char c) rest h = refl

-- A source of well-formed segments keeps its code, and its comments and its string, raw string and
-- character literals become spaces, as many as they have characters. The line breaks of comments,
-- strings and raw strings are kept; a character literal becomes spaces only, also where it holds a
-- line break.
pub blank_strings_and_comments-render_all :
    (gs : List Segment) → IsSource gs → blank_strings_and_comments (render_all gs) ≡ masked_all gs
unfolding blank_strings_and_comments render_all masked_all
blank_strings_and_comments-render_all [] h = refl
blank_strings_and_comments-render_all (g ∷ gs) h =
    scan-render g (render_all gs) h.0
    ∙ ap (masked g ++◌) (blank_strings_and_comments-render_all gs h.1)
