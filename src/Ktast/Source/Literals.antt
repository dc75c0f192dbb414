-- ===== src/Ktast/Source/Literals.antt =====
-- The literals of a well-formed source without character literals.
use deslop.Prelude.{
  ℕ, suc, ◌+◌, true, false, List, [], ◌∷◌, ◌++◌, Text, codes, starts_with, nat_eq, ◌≡◌, refl, arith,
  ap, ◌∙◌, sym, append_assoc, mem, any, contains, length, take, count, append-nil, length-append,
}
use deslop.Ktast.Literals.{
  code, line_comment, block_comment, raw_string, string, step, scan, line_of, unescape, literal,
  StringLit, max_lit, extract_string_lits,
}
use deslop.Ktast.Source.{
  Segment, escaped, render, IsWellFormed, render_all, IsSource, all_plain, literals, is_char,
  escaped_not_raw,
}

module _ (src : Text) where
  pub scan-plain :
      (t rest : Text) (i : ℕ)
      → all_plain t ≡ true
      → scan src code 0 i (t ++ rest) ≡ scan src code 0 (i + length t) rest
  unfolding scan step
  scan-plain [] rest i h = ap (λ j. scan src code 0 j rest) (omega arith)
  scan-plain (c ∷ t) rest i h = ground (arith, scan-plain t rest (suc i))

  scan-line_comment :
      (t rest : Text) (i : ℕ)
      → mem b'\n' t ≡ false
      → scan src line_comment 0 i (t ++ b'\n' ∷ rest) ≡ scan src code 0 (i + length t + 1) rest
  unfolding scan step mem
  scan-line_comment [] rest i h = ap (λ j. scan src code 0 j rest) (omega arith)
  scan-line_comment (c ∷ t) rest i h = ground (arith, scan-line_comment t rest (suc i))

  scan-block_comment :
      (t rest : Text) (i : ℕ)
      → contains (t ++ b'*' ∷ []) (codes "*/") ≡ false
      → scan src block_comment 0 i (t ++ b'*' ∷ b'/' ∷ rest)
        ≡ scan src code 0 (i + length t + 2) rest
  unfolding scan step contains starts_with
  scan-block_comment [] rest i h = ap (λ j. scan src code 0 j rest) (omega arith)
  scan-block_comment (c ∷ []) rest i h = ground (arith, scan-block_comment [] rest (suc i))
  scan-block_comment (c ∷ d ∷ t) rest i h = ground (arith, scan-block_comment (d ∷ t) rest (suc i))

  scan-text :
      (v rest buf : Text) (start i : ℕ)
      → scan src (string start buf) 0 i (escaped v ++ b'"' ∷ rest)
        ≡ literal src start (buf ++ v) ∷ scan src code 0 (i + length (escaped v) + 1) rest
  unfolding scan step unescape
  scan-text [] rest buf start i = ground (arith, append-nil buf)
  scan-text (c ∷ v) rest buf start i = ground (
    arith,
    scan-text v rest (buf ++ c ∷ []) start (suc i),
    scan-text v rest (buf ++ c ∷ []) start (suc (suc i)),
    append_assoc buf (c ∷ []) v,
  )

  scan-raw :
      (t rest buf : Text) (start i : ℕ)
      → contains (t ++ b'"' ∷ b'"' ∷ []) (codes "\"\"\"") ≡ false
      → scan src (raw_string start buf) 0 i (t ++ b'"' ∷ b'"' ∷ b'"' ∷ rest)
        ≡ literal src start (buf ++ t) ∷ scan src code 0 (i + length t + 3) rest
  unfolding scan step contains starts_with
  scan-raw [] rest buf start i h = ground (arith, append-nil buf)
  scan-raw (c ∷ []) rest buf start i h =
      ground (arith, scan-raw [] rest (buf ++ c ∷ []) start (suc i), append_assoc buf (c ∷ []) [])
  scan-raw (c ∷ d ∷ []) rest buf start i h = ground (
    arith,
    scan-raw (d ∷ []) rest (buf ++ c ∷ []) start (suc i),
    append_assoc buf (c ∷ []) (d ∷ []),
  )
  scan-raw (c ∷ d ∷ e ∷ t) rest buf start i h = ground (
    arith,
    scan-raw (d ∷ e ∷ t) rest (buf ++ c ∷ []) start (suc i),
    append_assoc buf (c ∷ []) (d ∷ e ∷ t),
  )

  scan_quote :
      (s : Text) (i : ℕ)
      → starts_with s (codes "\"\"") ≡ false
      → scan src code 0 i (b'"' ∷ s) ≡ scan src (string i []) 0 (suc i) s
  unfolding scan step
  scan_quote s i h = rw h

-- The literal that a segment is, with the line given.
abbrev literal_at : ℕ → Segment → List StringLit
literal_at line (Segment.text v) = record { line = line; value = take max_lit v } ∷ []
literal_at line (Segment.raw t) = record { line = line; value = take max_lit t } ∷ []
literal_at line _ = []

literals-cons :
    (line : ℕ) (g : Segment) (gs : List Segment)
    → literals line (g ∷ gs) ≡ literal_at line g ++ literals (line + count b'\n' (render g)) gs
unfolding literals
literals-cons line (Segment.plain t) gs = refl
literals-cons line _ gs = refl

module _ (src : Text) where
  -- One segment, with any text behind it that the segment allows.
  scan-render :
      (g : Segment) (rest : Text) (i : ℕ)
      → IsWellFormed g rest
      → is_char g ≡ false
      → scan src code 0 i (render g ++ rest)
        ≡ literal_at (line_of src i) g ++ scan src code 0 (i + length (render g)) rest
  unfolding scan step render starts_with
  scan-render (Segment.plain t) rest i h n = scan-plain src t rest i h
  scan-render (Segment.slash c) rest i h n = ground arith
  scan-render (Segment.line_comment t) rest i h n = simp append_assoc (
      scan-line_comment src t rest _ h
      ∙ ap (λ j. scan src code 0 j rest) (omega (arith, length-append t (b'\n' ∷ []))))
  scan-render (Segment.block_comment t) rest i h n =
      ap (scan src block_comment 0 (suc (suc i))) (append_assoc t (b'*' ∷ b'/' ∷ []) rest)
      ∙ scan-block_comment src t rest _ h
      ∙ ap (λ j. scan src code 0 j rest) (omega (arith, length-append t (b'*' ∷ b'/' ∷ [])))
  scan-render (Segment.text v) rest i h n = simp append_assoc (
      scan_quote src (escaped v ++ b'"' ∷ rest) i (escaped_not_raw v rest h)
      ∙ scan-text src v rest [] i _
      ∙ ap (λ j. literal src i v ∷ scan src code 0 j rest)
          (omega (arith, length-append (escaped v) (b'"' ∷ []))))
  scan-render (Segment.raw t) rest i h n =
      ap (scan src (raw_string i []) 0 (suc (suc (suc i))))
        (append_assoc t (b'"' ∷ b'"' ∷ b'"' ∷ []) rest)
      ∙ scan-raw src t rest [] i _ h
      ∙ ap (λ j. literal src i t ∷ scan src code 0 j rest)
          (omega (arith, length-append t (b'"' ∷ b'"' ∷ b'"' ∷ [])))
  scan-render (Segment.char c) rest i h n = cc
  scan-render (Segment.escaped_char c) rest i h n = cc

take-append_length : (xs ys : Text) → take (length xs) (xs ++ ys) ≡ xs
take-append_length [] ys = refl
take-append_length (x ∷ xs) ys = ap (x ∷◌) (take-append_length xs ys)

count-append : (c : ℕ) (xs ys : Text) → count c (xs ++ ys) ≡ count c xs + count c ys
unfolding count
count-append c [] ys = omega arith
count-append c (x ∷ xs) ys = omega (arith, count-append c xs ys)

line_of-append : (xs ys : Text) → line_of (xs ++ ys) (length xs) ≡ count b'\n' xs + 1
unfolding line_of
line_of-append xs ys = rw take-append_length

scan-render_all :
    (gs : List Segment) (src done : Text)
    → IsSource gs
    → any is_char gs ≡ false
    → src ≡ done ++ render_all gs
    → scan src code 0 (length done) (render_all gs) ≡ literals (count b'\n' done + 1) gs
unfolding render_all
scan-render_all [] src done h n e = unfold scan literals in refl
scan-render_all (g ∷ gs) src done h n e =
    scan-render src g (render_all gs) (length done) h.0 (ground arith)
    ∙ rw (line_of-done, literals-cons)
        (ap (literal_at (count b'\n' done + 1) g ++◌) (
          ap (λ j. scan src code 0 j (render_all gs)) (sym (length-append done (render g)))
          ∙ scan-render_all gs src (done ++ render g) h.1 (ground arith)
              (e ∙ sym (append_assoc done (render g) (render_all gs)))
          ∙ ap (λ n. literals n gs) lines))
  where
    line_of-done : line_of src (length done) ≡ count b'\n' done + 1
    line_of-done = ap (λ t. line_of t (length done)) e ∙ line_of-append done _

    lines : count b'\n' (done ++ render g) + 1 ≡ count b'\n' done + 1 + count b'\n' (render g)
    lines = omega (arith, count-append b'\n' done (render g))

-- In a source of well-formed segments without character literals `_extract_string_lits` finds the
-- string and raw string literals, in order, each with the line it opens on and the first 200
-- characters of what it stands for.
pub extract_string_lits-render_all :
    (gs : List Segment)
    → IsSource gs
    → any is_char gs ≡ false
    → extract_string_lits (render_all gs) ≡ literals 1 gs
unfolding extract_string_lits count
extract_string_lits-render_all gs h n = scan-render_all gs (render_all gs) [] h n refl
