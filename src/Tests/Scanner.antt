-- ===== src/Tests/Scanner.antt =====
-- The Kotlin scanner.
use deslop.Prelude.{
  ◌⊎◌, List, [], ◌∷◌, Text, codes, some, ◌≡◌, refl, length, get_elem?, count, mem, contains,
  starts_with, nat_eq,
}
use deslop.Ktast.Blank.{blank_strings_and_comments, space}
use deslop.Ktast.Blank.Laws.{blank_strings_and_comments_places}
use deslop.Ktast.Literals.{extract_string_lits, line_of}
use deslop.Ktast.Source.{
  Segment, plain, slash, line_comment, block_comment, text, raw, render, render_all, masked_all,
  literals, IsSource,
}
use deslop.Ktast.Source.Masked.{blank_strings_and_comments-render_all}
use deslop.Ktast.Source.Literals.{extract_string_lits-render_all}
use deslop.Ktast.Source.QuoteChar.{extract_string_lits_quote_char}
use deslop.Ktast.Braces.{match_brace, first_brace_after}
use deslop.Ktast.Braces.Laws.{Closes, match_brace-Closes}

blanked :
    blank_strings_and_comments (codes "val a = \"x//\" // b\nval c = '\\''/2 /* \n */ + 1")
    ≡ codes "val a =           \nval c =     /2    \n    + 1"
unfolding blank_strings_and_comments
blanked = refl

lits :
    extract_string_lits (codes "a(\"x\\n\") // \"b\"\nc(\"\"\"d\"e\"\"\")")
    ≡ record { line = 1; value = codes "x\n" } ∷ record { line = 2; value = codes "d\"e" } ∷ []
unfolding extract_string_lits count
lits = refl

-- A line break that a backslash escapes, and one in a character literal, become blanks.
lost_lines : count b'\n' (blank_strings_and_comments (codes "\"\\\n\"'\n'")) ≡ 0
unfolding blank_strings_and_comments count
lost_lines = refl

abbrev segments : List Segment
segments =
    plain (codes "val a = ")
    ∷ text (codes "x\"y\n")
    ∷ plain (codes " ")
    ∷ line_comment (codes " \"no")
    ∷ slash b'2'
    ∷ block_comment (codes "* '\n")
    ∷ raw (codes "a\"b")
    ∷ []

segments-IsSource : IsSource segments
unfolding mem contains starts_with render_all render
segments-IsSource = (refl, (refl, (refl, (refl, (refl, (refl, (refl, tt)))))))

blank_strings_and_comments-render_all_example :
    blank_strings_and_comments (render_all segments) ≡ masked_all segments
blank_strings_and_comments-render_all_example =
    blank_strings_and_comments-render_all segments segments-IsSource

extract_string_lits-render_all_example :
    extract_string_lits (render_all segments)
    ≡ record { line = 1; value = codes "x\"y\n" } ∷ record { line = 4; value = codes "a\"b" } ∷ []
unfolding literals count render
extract_string_lits-render_all_example =
    extract_string_lits-render_all segments segments-IsSource refl

abbrev sample : Text
sample = codes "f(\"a\") // b"

blank_strings_and_comments_places_example :
    (length (blank_strings_and_comments sample) ≡ 11)
    × ((get_elem? (blank_strings_and_comments sample) 5 ≡ some space)
        ⊎ (get_elem? (blank_strings_and_comments sample) 5 ≡ get_elem? sample 5))
    × (blank_strings_and_comments (blank_strings_and_comments sample)
        ≡ blank_strings_and_comments sample)
blank_strings_and_comments_places_example = blank_strings_and_comments_places sample 5

extract_string_lits_quote_char_example :
    extract_string_lits (codes "'\"'+\"key\"")
    ≡ record { line = 1; value = codes "'+" } ∷ record { line = 1; value = [] } ∷ []
unfolding line_of count mem
extract_string_lits_quote_char_example =
    extract_string_lits_quote_char (codes "+") (codes "key") refl refl refl

match_brace-Closes_example : Closes 1 2 (codes "{} }") (match_brace (codes "a{{} }") 1)
match_brace-Closes_example = match_brace-Closes (codes "a") (codes "{} }")

matched : match_brace (codes "a{{} }") 1 ≡ some 5
unfolding match_brace
matched = refl

found_brace : first_brace_after (codes "f(a = {}) {") 1 11 ≡ some 10
unfolding first_brace_after
found_brace = refl
