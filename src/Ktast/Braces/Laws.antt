-- ===== src/Ktast/Braces/Laws.antt =====
-- Which brace is found.
use deslop.Prelude.{
  ℕ, zero, suc, ◌+◌, ◌-◌, ◌≤◌, ◌<◌, true, ◌&&◌, [], ◌∷◌, ◌++◌, Text, ◌==◌, nat_eq, drop, Option,
  none, some, take, count, ◌≡◌, refl, arith, get_elem?, Bool-cases, inl, inr, ap, ◌∙◌, sym, length,
}
use deslop.Ktast.Braces.{match_loop, match_brace, first_brace_loop, first_brace_after}

abbrev opened : ℕ → Text → ℕ
opened n s = count b'{' (take n s)

abbrev closed : ℕ → Text → ℕ
closed n s = count b'}' (take n s)

-- In the text `s` behind `depth` open braces, `n` characters leave some of them open.
abbrev StaysOpen : ℕ → Text → ℕ → Type 0
StaysOpen depth s n = closed n s < depth + opened n s

-- `none` where some brace stays open to the end, and otherwise the index of the first character
-- that closes the last of them.
abbrev pub Closes : ℕ → ℕ → Text → Option ℕ → Type 0
Closes depth i s none = (n : ℕ) → StaysOpen depth s n
Closes depth i s (some j) =
    (n : ℕ) × (j ≡ i + n)
    × (get_elem? s n ≡ some b'}')
    × (closed (suc n) s ≡ depth + opened (suc n) s)
    × ((m : ℕ) → m ≤ n → StaysOpen depth s m)

-- One character more in front, after which the depth is another.
StaysOpen-cons :
    (d d' c : ℕ) (s : Text) (n : ℕ)
    → 0 < d
    → d' + count b'}' (c ∷ []) ≡ d + count b'{' (c ∷ [])
    → StaysOpen d' s n
    → StaysOpen d (c ∷ s) (suc n)
unfolding count
StaysOpen-cons d d' c s n pos e h = omega arith

StaysOpen-cons_all :
    (d d' c : ℕ) (s : Text)
    → 0 < d
    → d' + count b'}' (c ∷ []) ≡ d + count b'{' (c ∷ [])
    → ((n : ℕ) → StaysOpen d' s n)
    → (n : ℕ) → StaysOpen d (c ∷ s) n
unfolding count
StaysOpen-cons_all d d' c s pos e h zero = omega arith
StaysOpen-cons_all d d' c s pos e h (suc n) = StaysOpen-cons d d' c s n pos e (h n)

Closes-cons :
    (d d' i c : ℕ) (s : Text) (r : Option ℕ)
    → 0 < d
    → d' + count b'}' (c ∷ []) ≡ d + count b'{' (c ∷ [])
    → Closes d' (suc i) s r
    → Closes d i (c ∷ s) r
unfolding count
Closes-cons d d' i c s none pos e h = StaysOpen-cons_all d d' c s pos e h
Closes-cons d d' i c s (some j) pos e (n, at, brace, closes, before) =
    (suc n, omega arith, brace, omega arith, earlier)
  where
    earlier : (m : ℕ) → m ≤ suc n → StaysOpen d (c ∷ s) m
    earlier zero l = omega arith
    earlier (suc m) l = StaysOpen-cons d d' c s m pos e (before m (omega arith))

Closes-here : (d i c : ℕ) (s : Text) → d ≡ 1 → (c == b'}') ≡ true → Closes d i (c ∷ s) (some i)
unfolding count
Closes-here d i c s one brace = (0, omega arith, ground arith, ground arith, earlier)
  where
    earlier : (m : ℕ) → m ≤ 0 → StaysOpen d (c ∷ s) m
    earlier zero l = omega arith
    earlier (suc m) l = absurd (omega arith)

Closes-nil : (d i : ℕ) → 0 < d → (n : ℕ) → StaysOpen d [] n
unfolding count
Closes-nil d i pos zero = omega arith
Closes-nil d i pos (suc n) = omega arith

match_loop-Closes : (s : Text) (d i : ℕ) → 0 < d → Closes d i s (match_loop d i s)
unfolding match_loop count
match_loop-Closes [] d i pos = Closes-nil d i pos
match_loop-Closes (c ∷ s) d i pos = elim (Bool-cases (c == b'{')) [
  | inl opens ↦ rw opens (
      Closes-cons d (d + 1) i c s _ pos (ground arith)
        (match_loop-Closes s (d + 1) (suc i) (omega arith)))
  | inr other ↦ rw other (elim (Bool-cases (c == b'}')) [
    | inl closes ↦ rw closes (elim (Bool-cases (d - 1 == 0)) [
      | inl last ↦ rw last (Closes-here d i c s (ground arith) closes)
      | inr inner ↦ rw inner (
          Closes-cons d (d - 1) i c s _ pos (ground arith)
            (match_loop-Closes s (d - 1) (suc i) (ground arith)))
    ])
    | inr plain ↦
        rw plain (Closes-cons d d i c s _ pos (ground arith) (match_loop-Closes s d (suc i) pos))
  ])
]

drop-append_length : (xs ys : Text) → drop (length xs) (xs ++ ys) ≡ ys
drop-append_length [] ys = refl
drop-append_length (x ∷ xs) ys = drop-append_length xs ys

-- At an open brace `_match_brace` returns the first index behind it up to which as many braces are
-- closed as opened, and nothing where one brace stays open at every place.
pub match_brace-Closes :
    (front s : Text)
    → Closes 1 (suc (length front)) s (match_brace (front ++ b'{' ∷ s) (length front))
unfolding match_brace
match_brace-Closes front s =
    rw (drop-append_length, match_brace) (match_loop-Closes s 1 (suc (length front)) (omega arith))

get_elem?-drop : (n i : ℕ) (s : Text) → get_elem? (drop n s) i ≡ get_elem? s (n + i)
get_elem?-drop zero i s = ap (get_elem? s) (omega arith)
get_elem?-drop (suc n) i [] = refl
get_elem?-drop (suc n) i (c ∷ s) =
    let index : suc (n + i) ≡ suc n + i = omega arith in
    get_elem?-drop n i s ∙ ap (get_elem? (c ∷ s)) index

-- `j` is an index at most `n` rounds from `i`, and an open brace stands there.
abbrev IsBrace : ℕ → ℕ → Text → ℕ → Type 0
IsBrace n i s j = (k : ℕ) × (j ≡ i + k) × (k < n) × (get_elem? s k ≡ some b'{')

IsBrace-cons : (n i c : ℕ) (s : Text) {j : ℕ} → IsBrace n (suc i) s j → IsBrace (suc n) i (c ∷ s) j
IsBrace-cons n i c s (k, at, below, brace) = (suc k, omega arith, omega arith, brace)

first_brace_loop-IsBrace :
    (n depth i : ℕ) (s : Text) {j : ℕ} → first_brace_loop n depth i s ≡ some j → IsBrace n i s j
unfolding first_brace_loop
first_brace_loop-IsBrace zero depth i s h = cc
first_brace_loop-IsBrace (suc n) depth i [] h = cc
first_brace_loop-IsBrace (suc n) depth i (c ∷ s) h = elim (Bool-cases (c == b'(')) [
  | inl e ↦ IsBrace-cons n i c s (first_brace_loop-IsBrace n (depth + 1) (suc i) s (ground arith))
  | inr e ↦ elim (Bool-cases (c == b')')) [
    | inl e' ↦
        IsBrace-cons n i c s (first_brace_loop-IsBrace n (depth - 1) (suc i) s (ground arith))
    | inr e' ↦ elim (Bool-cases (c == b'{' && depth == 0)) [
      | inl here ↦ (0, ground arith, omega arith, ground arith)
      | inr e'' ↦ IsBrace-cons n i c s (first_brace_loop-IsBrace n depth (suc i) s (ground arith))
    ]
  ]
]

-- What `first_brace_after` finds is an open brace at an index from `start` on and below `limit`.
pub first_brace_after-brace :
    (text : Text) (start limit : ℕ) {j : ℕ}
    → first_brace_after text start limit ≡ some j
    → (start ≤ j) × (j < limit) × (get_elem? text j ≡ some b'{')
unfolding first_brace_after
first_brace_after-brace text start limit h =
    let (k, at, below, brace) = first_brace_loop-IsBrace _ 0 start (drop start text) h in
    (omega arith, omega arith, rw at (sym (get_elem?-drop start k text) ∙ brace))
