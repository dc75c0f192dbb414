-- ===== src/Pyast/Laws.antt =====
-- What the imports of a Python file make of a name.
use deslop.Prelude.{
  ℕ, false, [], ◌∷◌, ◌++◌, Text, codes, none, some, Dict, assign, mem, ◌==◌, nat_eq, list_eq, ◌≡◌,
  ◌≢◌, refl, arith, lookup-assign, beq_refl,
}
use deslop.Pyast.{
  with_rest, before_dot, after_dot, resolve, visit_import, visit_import_from, import_names,
}

before_dot-append : (a s : Text) → mem b'.' a ≡ false → before_dot (a ++ b'.' ∷ s) ≡ a
unfolding before_dot mem
before_dot-append [] s h = refl
before_dot-append (c ∷ a) s h = ground (arith, before_dot-append a s)

after_dot-append : (a s : Text) → mem b'.' a ≡ false → after_dot (a ++ b'.' ∷ s) ≡ s
unfolding after_dot mem
after_dot-append [] s h = refl
after_dot-append (c ∷ a) s h = ground (arith, after_dot-append a s)

-- A name that begins with one that an import binds.
resolve-bound :
    (x v r : Text) (aliases : Dict Text Text)
    → mem b'.' x ≡ false
    → resolve (x ++ b'.' ∷ r) (assign x v aliases) ≡ with_rest v r
unfolding resolve
resolve-bound x v r aliases h =
    by_case (x ++ b'.' ∷ r) (before_dot-append x r h) (after_dot-append x r h) (ne x)
  where
    ne : (x : Text) → (x ++ b'.' ∷ r) ≢ []
    ne [] e = cc
    ne (c ∷ x) e = cc

    by_case :
        (n : Text)
        → before_dot n ≡ x
        → after_dot n ≡ r
        → n ≢ []
        → resolve n (assign x v aliases) ≡ with_rest v r
    by_case [] f g k = absurd (k refl)
    by_case (c ∷ n) f g k = rw (f, g, lookup-assign x x v aliases, beq_refl x) refl

-- Behind `import m as x`, `x.r` is resolved to `m.r`; behind `from m import f`, `f.r` to `m.f.r`;
-- behind `import a.b`, which binds `a` to `a.b`, `a.b.r` to `a.b.b.r`. Here `x`, `f` and `a` are names
-- without a dot, `x` is not empty, `f` is not `*`, and `m` is any module.
pub resolve-imports :
    (a b m f r x : Text) (c : ℕ) (aliases : Dict Text Text)
    → mem b'.' a ≡ false
    → mem b'.' f ≡ false
    → mem b'.' (c ∷ x) ≡ false
    → (f == codes "*") ≡ false
    → (resolve
          ((c ∷ x) ++ b'.' ∷ r)
          (visit_import (record { name = m; asname = some (c ∷ x) } ∷ []) aliases)
        ≡ with_rest m r)
      × (resolve
            (f ++ b'.' ∷ r)
            (visit_import_from (some m) (record { name = f; asname = none } ∷ []) aliases)
          ≡ with_rest (m ++ b'.' ∷ f) r)
      × (resolve
            (a ++ b'.' ∷ (b ++ b'.' ∷ r))
            (visit_import (record { name = a ++ b'.' ∷ b; asname = none } ∷ []) aliases)
          ≡ with_rest (a ++ b'.' ∷ b) (b ++ b'.' ∷ r))
unfolding visit_import visit_import_from import_names
resolve-imports a b m f r x c aliases ha hf hx star = (
  resolve-bound (c ∷ x) m r aliases hx,
  rw star (resolve-bound f (m ++ b'.' ∷ f) r aliases hf),
  rw (before_dot-append a b ha) (resolve-bound a (a ++ b'.' ∷ b) (b ++ b'.' ∷ r) aliases ha),
)
