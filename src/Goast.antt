-- ===== src/Goast.antt =====
-- checkers/goast_client.py: which Go files are in scope, and whether a source has a package clause.
pub mod Laws
use deslop.Prelude.{
  ℕ, Bool, true, false, ◌&&◌, ◌||◌, List, [], ◌∷◌, ◌++◌, Text, codes, starts_with, ends_with,
  contains, after_last, mem, if◌then◌else◌, ◌==◌, nat_eq,
}
use deslop.Checkers.Common.{normalized, padded}

unfoldable pub is_skipped : Text → Bool → Bool
is_skipped filename include_tests =
    let norm = normalized filename in
    let name = after_last b'/' norm in
    if include_tests
    then false
    else ends_with name (codes "_test.go")
      || (ends_with name (codes "_tests.go")
          || (starts_with name (codes "test_")
              || ((contains norm (codes "/testdata/") || starts_with norm (codes "testdata/"))
                  || ((contains norm (codes "/vendor/") || starts_with norm (codes "vendor/"))
                      || (contains norm (codes "/e2e/")
                          || contains (padded norm) (codes "/e2e/"))))))

-- The loop of `_has_package_clause`: before the clause, in a line comment, at the second character of
-- `/*`, in a block comment, and at the second character of `*/`.
pub data Lead : Type 0 where
  leading line_comment opening block_comment closing : Lead

abbrev pub is_blank : ℕ → Bool
is_blank c = mem c (codes " \t\r\n")

unfoldable pub lead : Lead → Text → Bool
lead l [] = false
lead leading (c ∷ s) =
    let blank = lead leading s in
    let line = lead line_comment s in
    let block = lead opening s in
    if is_blank c
    then blank
    else if c == b'/' && starts_with s (codes "/")
    then line
    else if c == b'/' && starts_with s (codes "*")
    then block
    else starts_with (c ∷ s) (codes "package")
lead line_comment (c ∷ s) =
    let over = lead leading s in let on = lead line_comment s in if c == b'\n' then over else on
lead opening (c ∷ s) = lead block_comment s
lead block_comment (c ∷ s) =
    let over = lead closing s in
    let on = lead block_comment s in if c == b'*' && starts_with s (codes "/") then over else on
lead closing (c ∷ s) = lead leading s

unfoldable pub has_package_clause : Text → Bool
unfolding lead
has_package_clause source = lead leading source

-- The source that is written to the temporary file.
unfoldable pub wrapped : Text → Text
wrapped source = if has_package_clause source then source else codes "package main\n\n" ++ source
