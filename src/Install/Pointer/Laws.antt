-- ===== src/Install/Pointer/Laws.antt =====
-- The line of AGENTS.md that scripts/install.py writes is written once.
use deslop.Prelude.{
  Bool, true, false, ◌||◌, ◌&&◌, not, ends_with, append-nil, List, [], ◌∷◌, ◌++◌, Text, codes,
  starts_with, contains, if◌then◌else◌, ◌==◌, nat_eq, list_eq, ◌≡◌, refl, arith, ◌∙◌, ap, sym,
  append_assoc, beq_refl, Bool-cases, inl, inr, lookup-assign,
}
use deslop.Install.Files.{FileTree, file, read_text, write_text}
use deslop.Install.Pointer.{
  end_paragraph, rstrip_newlines, onto_rest, pointer_mark, agents_pointer, pointer_prefix,
  has_pointer, agents_md, add_pointer,
}

starts_with-append : (m s : Text) → starts_with (m ++ s) m ≡ true
unfolding starts_with
starts_with-append [] s = starts_nil s
  where
    starts_nil : (s : Text) → starts_with s [] ≡ true
    starts_nil [] = refl
    starts_nil (c ∷ s) = refl
starts_with-append (c ∷ m) s = rw (beq_refl c) (starts_with-append m s)

contains-start : (m s : Text) → contains (m ++ s) m ≡ true
unfolding contains
contains-start m s = by_case (m ++ s) (starts_with-append m s)
  where
    by_case : (t : Text) → starts_with t m ≡ true → contains t m ≡ true
    by_case [] h = h
    by_case (c ∷ t) h = ground arith

contains-behind : (p s m : Text) → contains s m ≡ true → contains (p ++ s) m ≡ true
unfolding contains
contains-behind [] s m h = h
contains-behind (c ∷ p) s m h = ground (arith, contains-behind p s m)

-- What is written has the mark, whatever it is written behind.
has_pointer-written :
    (prefix : Text) → has_pointer (prefix ++ (agents_pointer ++ codes "\n")) ≡ true
has_pointer-written prefix =
    rw
      (contains-behind prefix (agents_pointer ++ codes "\n") pointer_mark (
        contains-behind (codes "StopThatSlop: glob-scoped Cursor rules in `.cursor/rules/") _
          pointer_mark (contains-start pointer_mark _)))
      refl

read_text-write : (p : List Text) (t : Text) (fs : FileTree) → read_text p (write_text p t fs) ≡ t
read_text-write p t fs = rw (lookup-assign p p (file t) fs, beq_refl p) refl

-- The text without its last newlines begins it, and is the same with one newline more.
starts_with-rstrip : (s t : Text) → starts_with (s ++ t) (rstrip_newlines s) ≡ true
unfolding starts_with rstrip_newlines
starts_with-rstrip [] t = starts_with-append [] t
starts_with-rstrip (c ∷ s) t = by_case (rstrip_newlines s) (starts_with-rstrip s t)
  where
    by_case :
        (r : Text)
        → starts_with (s ++ t) r ≡ true
        → starts_with (c ∷ (s ++ t)) (onto_rest c r) ≡ true
    by_case [] h = ground (arith, beq_refl c)
    by_case (d ∷ r) h = rw (beq_refl c) h

rstrip-newline : (s : Text) → rstrip_newlines (s ++ codes "\n") ≡ rstrip_newlines s
unfolding rstrip_newlines
rstrip-newline [] = refl
rstrip-newline (c ∷ s) = ap (onto_rest c) (rstrip-newline s)

starts_with-end_paragraph :
    (s t : Text) → starts_with (end_paragraph s ++ t) (rstrip_newlines s) ≡ true
starts_with-end_paragraph s t = by_case (not (s == []) && not (ends_with s (codes "\n\n")))
  where
    by_case :
        (b : Bool)
        → starts_with
            ((if b then rstrip_newlines s ++ codes "\n\n" else s) ++ t)
            (rstrip_newlines s)
          ≡ true
    by_case true =
        rw (append_assoc (rstrip_newlines s) (codes "\n\n") t)
          (starts_with-append (rstrip_newlines s) _)
    by_case false = starts_with-rstrip s t

starts_with-prefix : (s t : Text) → starts_with (pointer_prefix s ++ t) (rstrip_newlines s) ≡ true
unfolding pointer_prefix
starts_with-prefix s t = by_case (ends_with s (codes "\n") || (s == []))
  where
    by_case :
        (b : Bool)
        → starts_with (end_paragraph (if b then s else s ++ codes "\n") ++ t) (rstrip_newlines s)
          ≡ true
    by_case true = starts_with-end_paragraph s t
    by_case false = rw (sym (rstrip-newline s)) (starts_with-end_paragraph (s ++ codes "\n") t)

add_pointer-once :
    (fs : FileTree) → has_pointer (read_text agents_md fs) ≡ true → add_pointer fs ≡ fs
unfolding add_pointer
add_pointer-once fs h = rw h refl

-- Behind the step that adds the line, `AGENTS.md` has its mark and begins with the text that it had,
-- up to newlines at its end, and doing the step again changes nothing.
pub add_pointer-idempotent :
    (fs : FileTree)
    → (has_pointer (read_text agents_md (add_pointer fs)) ≡ true)
      × (starts_with
            (read_text agents_md (add_pointer fs))
            (rstrip_newlines (read_text agents_md fs))
          ≡ true)
      × (add_pointer (add_pointer fs) ≡ add_pointer fs)
unfolding add_pointer
add_pointer-idempotent fs = (marked, begins, add_pointer-once (add_pointer fs) marked)
  where
    before : Text
    before = read_text agents_md fs

    written : Text
    written = pointer_prefix before ++ (agents_pointer ++ codes "\n")

    marked : has_pointer (read_text agents_md (add_pointer fs)) ≡ true
    marked = elim (Bool-cases (has_pointer before)) [
      | inl found ↦ rw found found
      | inr absent ↦
          rw (absent, read_text-write agents_md written fs)
            (has_pointer-written (pointer_prefix before))
    ]

    begins : starts_with (read_text agents_md (add_pointer fs)) (rstrip_newlines before) ≡ true
    begins = elim (Bool-cases (has_pointer before)) [
      | inl found ↦ rw found (
          ap (λ t. starts_with t (rstrip_newlines before)) (sym (append-nil before))
          ∙ starts_with-rstrip before [])
      | inr absent ↦
          rw (absent, read_text-write agents_md written fs)
            (starts_with-prefix before (agents_pointer ++ codes "\n"))
    ]
