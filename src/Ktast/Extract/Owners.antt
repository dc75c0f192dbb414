-- ===== src/Ktast/Extract/Owners.antt =====
-- Which function of a Kotlin source a call is recorded for.
use deslop.Prelude.{
  ℕ, ◌+◌, ◌≤◌, ◌≡◌, refl, ap, ◌∙◌, List, [], ◌∷◌, Text, All, All-append, keep, Option, none, some,
  arith, if◌then◌else◌, Bool-cases, inl, inr, Bool, true, false, count_if, list_eq, nat_eq,
  count_if-append,
}
use mathlib.Core.Option.{map as map_option}
use deslop.Ktast.Facts.{Class, Call, Function, spans}
use deslop.Ktast.Extract.{function_at, name_at, record_call, owner_for}

-- A call that is recorded for a function stands on its lines and names it.
abbrev pub IsCallOf : Function → Call → Type 0
IsCallOf fn c = (spans c.line fn.line_start fn.line_end ≡ true) × (c.in_function ≡ some fn.name)

abbrev is_none : Option Text → Bool
is_none none = true
is_none (some t) = false

abbrev pub is_outside : Call → Bool
is_outside c = is_none c.in_function

unfoldable pub count_in : (Call → Bool) → List Function → ℕ
count_in p [] = 0
count_in p (fn ∷ fns) = count_if p fn.calls + count_in p fns

-- The function's lines, and its owner among the classes.
abbrev pub IsPlacedIn : List Class → Function → Type 0
IsPlacedIn classes fn =
    (fn.line_start ≤ fn.line_end)
    × (fn.owner ≡ owner_for fn.line_start classes)
    × All (IsCallOf fn) fn.calls

name-if :
    (b : Bool) (f g : Function) (o q : Option Function)
    → f.name ≡ g.name
    → map_option (λ fn. fn.name) o ≡ map_option (λ fn. fn.name) q
    → map_option (λ fn. fn.name) (if b then some f else o)
      ≡ map_option (λ fn. fn.name) (if b then some g else q)
name-if true f g o q e h = ap some e
name-if false f g o q e h = h

pub name_at-record_call :
    (rec : Call) (line : ℕ) (fns : List Function)
    → name_at line (record_call rec fns) ≡ name_at line fns
unfolding function_at record_call
name_at-record_call rec line [] = refl
name_at-record_call rec line (fn ∷ fns) =
    elim (Bool-cases (spans rec.line fn.line_start fn.line_end)) [
      | inl e ↦ rw e (name-if (spans line fn.line_start fn.line_end) _ fn _ _ refl refl)
      | inr e ↦ rw e (
          name-if (spans line fn.line_start fn.line_end) fn fn _ _ refl
            (name_at-record_call rec line fns))
    ]

name_at-first :
    (line : ℕ) (fn : Function) (fns : List Function)
    → spans line fn.line_start fn.line_end ≡ true
    → name_at line (fn ∷ fns) ≡ some fn.name
unfolding function_at
name_at-first line fn fns e = rw e refl

name_at-later :
    (line : ℕ) (fn : Function) (fns : List Function)
    → spans line fn.line_start fn.line_end ≡ false
    → name_at line (fn ∷ fns) ≡ name_at line fns
unfolding function_at
name_at-later line fn fns e = rw e refl

pub record_call-Placed :
    (classes : List Class) (rec : Call) (fns : List Function)
    → rec.in_function ≡ name_at rec.line fns
    → All (IsPlacedIn classes) fns
    → All (IsPlacedIn classes) (record_call rec fns)
unfolding record_call
record_call-Placed classes rec [] named h = tt
record_call-Placed classes rec (fn ∷ fns) named h =
    elim (Bool-cases (spans rec.line fn.line_start fn.line_end)) [
      | inl e ↦ rw e (
        (
          h.0.0,
          h.0.1,
          All-append (IsCallOf fn) fn.calls (rec ∷ []) h.0.2
              ((e, named ∙ name_at-first rec.line fn fns e), tt),
        ),
        h.1,
      )
      | inr e ↦
          rw e
            (h.0, record_call-Placed classes rec fns (named ∙ name_at-later rec.line fn fns e) h.1)
    ]

keep-outside : (rec : Call) → rec.in_function ≡ none → keep is_outside (rec ∷ []) ≡ rec ∷ []
keep-outside rec e = rw e refl

count_if-inside :
    (p : Call → Bool) (rec : Call) (name : Text)
    → rec.in_function ≡ some name
    → count_if p (keep is_outside (rec ∷ [])) ≡ 0
unfolding count_if
count_if-inside p rec name e = rw e refl

pub record_call-count :
    (p : Call → Bool) (rec : Call) (fns : List Function)
    → rec.in_function ≡ name_at rec.line fns
    → count_in p (record_call rec fns) + count_if p (keep is_outside (rec ∷ []))
      ≡ count_in p fns + count_if p (rec ∷ [])
unfolding record_call count_in function_at
record_call-count p rec [] named = ap (λ cs. 0 + count_if p cs) (keep-outside rec named)
record_call-count p rec (fn ∷ fns) named =
    elim (Bool-cases (spans rec.line fn.line_start fn.line_end)) [
      | inl e ↦ rw e (
          omega (
            arith,
            count_if-append p fn.calls (rec ∷ []),
            count_if-inside p rec fn.name (named ∙ name_at-first rec.line fn fns e),
          ))
      | inr e ↦
          rw e
            (omega (arith, record_call-count p rec fns (named ∙ name_at-later rec.line fn fns e)))
    ]
