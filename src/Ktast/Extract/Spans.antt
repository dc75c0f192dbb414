-- ===== src/Ktast/Extract/Spans.antt =====
-- The lines of the classes and functions that checkers/ktast_client.py extracts.
use deslop.Prelude.{
  ℕ, zero, suc, ◌+◌, ◌-◌, ◌≤◌, ◌≡◌, refl, List, [], ◌∷◌, Text, take, drop, length, count, All,
  Option, none, some, arith, if◌then◌else◌, ◌==◌, nat_eq, Bool, true, false,
}
use mathlib.Core.Option.{map as map_option}
use deslop.Ktast.Literals.{line_of}
use deslop.Ktast.Braces.{match_loop, at_brace, match_brace, first_brace_after}
use deslop.Ktast.Braces.Laws.{first_brace_after-brace}
use deslop.Ktast.Facts.{Class, Function}
use deslop.Ktast.Extract.{
  Match, Patterns, onto_kept, filter_map, closed_at, block_after, class_of, extract_classes,
  function_of, extract_functions, owner_for,
}

-- What holds of a value that may be missing.
abbrev pub IfSome {ℓ κ} : {A : Type ℓ} → (A → Type κ) → Option A → Type κ
IfSome P none = Unit
IfSome P (some a) = P a

pub IfSome-intro :
    {A : Type 0} (P : A → Type 0) (o : Option A) → ((a : A) → o ≡ some a → P a) → IfSome P o
IfSome-intro P none h = tt
IfSome-intro P (some a) h = h a refl

IfSome-map :
    {A B : Type 0} (P : A → Type 0) (Q : B → Type 0) (f : A → B) (o : Option A)
    → ((a : A) → P a → Q (f a))
    → IfSome P o
    → IfSome Q (map_option f o)
IfSome-map P Q f none g h = tt
IfSome-map P Q f (some a) g h = g a h

IfSome-if :
    {A : Type 0} (P : A → Type 0) (b : Bool) (o q : Option A)
    → IfSome P o
    → IfSome P q
    → IfSome P (if b then o else q)
IfSome-if P true o q h k = h
IfSome-if P false o q h k = k

onto_kept-All :
    {B : Type 0} (Q : B → Type 0) (o : Option B) (kept : List B)
    → IfSome Q o
    → All Q kept
    → All Q (onto_kept o kept)
onto_kept-All Q none kept h k = k
onto_kept-All Q (some b) kept h k = (h, k)

filter_map-All :
    {A B : Type 0} (P : A → Type 0) (Q : B → Type 0) (f : A → Option B) (xs : List A)
    → ((x : A) → P x → IfSome Q (f x))
    → All P xs
    → All Q (filter_map f xs)
filter_map-All P Q f [] g h = tt
filter_map-All P Q f (x ∷ xs) g h =
    onto_kept-All Q (f x) (filter_map f xs) (g x h.0) (filter_map-All P Q f xs g h.1)

count-take : (c : ℕ) (s : Text) (i j : ℕ) → i ≤ j → count c (take i s) ≤ count c (take j s)
unfolding count
count-take c s zero j le = omega arith
count-take c s (suc i) zero le = absurd (omega (arith, le))
count-take c [] (suc i) (suc j) le = omega arith
count-take c (d ∷ s) (suc i) (suc j) le = omega (arith, count-take c s i j (omega (arith, le)))

line_of_mono : (text : Text) (i j : ℕ) → i ≤ j → line_of text i ≤ line_of text j
unfolding line_of
line_of_mono text i j le = omega (arith, count-take b'\n' text i j le)

From-suc : (i : ℕ) (o : Option ℕ) → IfSome (λ j. suc i ≤ j) o → IfSome (λ j. i ≤ j) o
From-suc i none h = tt
From-suc i (some j) h = omega (arith, h)

match_loop-From : (s : Text) (depth i : ℕ) → IfSome (λ j. i ≤ j) (match_loop depth i s)
unfolding match_loop
match_loop-From [] depth i = tt
match_loop-From (c ∷ s) depth i =
    IfSome-if _ (c == b'{') _ _ (From-suc i _ (match_loop-From s (depth + 1) (suc i))) (
      IfSome-if _ (c == b'}') _ _
        (IfSome-if _ (depth - 1 == 0) (some i) _ (omega arith)
          (From-suc i _ (match_loop-From s (depth - 1) (suc i))))
        (From-suc i _ (match_loop-From s depth (suc i))))

at_brace-From : (i : ℕ) (s : Text) → IfSome (λ j. i ≤ j) (at_brace i s)
at_brace-From i [] = tt
at_brace-From i (c ∷ s) =
    IfSome-if _ (c == b'{') (match_loop 0 i (c ∷ s)) none (match_loop-From (c ∷ s) 0 i) tt

-- The brace that closes a block stands behind the match that it is found for, or at its end.
abbrev IsBlock : Match → ℕ × ℕ → Type 0
IsBlock m (brace, end) = m.end ≤ end

closed_at-IsBlock :
    (text : Text) (m : Match) (o : Option ℕ)
    → IfSome (λ brace. m.end ≤ brace) o
    → IfSome (IsBlock m) (closed_at text o)
unfolding match_brace
closed_at-IsBlock text m none h = tt
closed_at-IsBlock text m (some brace) h =
    IfSome-map (λ end. brace ≤ end) (IsBlock m) (λ end. (brace, end)) (match_brace text brace)
      (λ end le. omega (arith, le, h)) (at_brace-From brace (drop brace text))

block_after-IsBlock : (text : Text) (m : Match) → IfSome (IsBlock m) (block_after text m)
unfolding block_after
block_after-IsBlock text m = closed_at-IsBlock text m (first_brace_after text m.end (length text)) (
    IfSome-intro _ (first_brace_after text m.end (length text))
      (λ brace e. (first_brace_after-brace text m.end (length text) e).0))

-- A match ends where it starts or later.
abbrev pub IsForward : Match → Type 0
IsForward m = m.start ≤ m.end

-- Lines, the class around, and no calls yet.
abbrev pub IsFresh : List Class → Function → Type 0
IsFresh classes fn =
    (fn.line_start ≤ fn.line_end) × (fn.owner ≡ owner_for fn.line_start classes) × (fn.calls ≡ [])

module _ (re : Patterns) (text : Text) where
  pub extract_classes-Spans :
      All IsForward (re.class_re text)
      → All (λ cls. cls.line_start ≤ cls.line_end) (extract_classes re text)
  unfolding extract_classes
  extract_classes-Spans h =
      filter_map-All IsForward _ _ (re.class_re text)
        (λ m forward.
          IfSome-map (IsBlock m) _ (class_of re text m) (block_after text m)
            (λ block le. line_of_mono text m.start block.1 (omega (arith, le, forward)))
            (block_after-IsBlock text m))
        h

  pub extract_functions-Fresh :
      (classes : List Class)
      → All IsForward (re.fun_re text)
      → All (IsFresh classes) (extract_functions re text classes)
  unfolding extract_functions
  extract_functions-Fresh classes h =
      filter_map-All IsForward _ _ (re.fun_re text)
        (λ m forward.
          IfSome-map (IsBlock m) _ (function_of re text classes m) (block_after text m)
            (λ block le.
              (line_of_mono text m.start block.1 (omega (arith, le, forward)), refl, refl))
            (block_after-IsBlock text m))
        h
