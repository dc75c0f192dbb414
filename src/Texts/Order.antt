-- ===== src/Texts/Order.antt =====
-- Python's order of texts, and `sorted`.
use deslop.Prelude.{
  Bool, true, false, ◌||◌, List, [], ◌∷◌, Text, any, if◌then◌else◌, ◌==◌, nat_eq, list_eq, list_beq,
  list_beq_iff, mem-tail, mem-head, ltb, ◌≡◌, refl, arith, ◌∙◌, ap, sym, ◌≢◌, Bool-cases, inl, inr,
  get_last_or, mem, All, All-implies,
}

-- `s <= t` on texts
unfoldable pub text_leb : Text → Text → Bool
text_leb [] t = true
text_leb (c ∷ s) [] = false
text_leb (c ∷ s) (d ∷ t) = let rest = text_leb s t in if c == d then rest else ltb c d

-- `sorted(…, key=key)`, which is stable
unfoldable pub insert_by : (Text → Text) → Text → List Text → List Text
insert_by key a [] = a ∷ []
insert_by key a (b ∷ bs) =
    let rest = insert_by key a bs in if text_leb (key a) (key b) then a ∷ b ∷ bs else b ∷ rest

unfoldable pub sorted_by : (Text → Text) → List Text → List Text
unfolding insert_by text_leb
sorted_by key [] = []
sorted_by key (a ∷ as') = insert_by key a (sorted_by key as')

module _ (key : Text → Text) (p : Text → Bool) where
  any-insert_by : (a : Text) (bs : List Text) → any p (insert_by key a bs) ≡ (p a || any p bs)
  unfolding insert_by
  any-insert_by a [] = refl
  any-insert_by a (b ∷ bs) = by_case (text_leb (key a) (key b)) _ (any-insert_by a bs)
    where
      by_case :
          (l : Bool) (r : List Text)
          → any p r ≡ (p a || any p bs)
          → any p (if l then a ∷ b ∷ bs else b ∷ r) ≡ (p a || (p b || any p bs))
      by_case true r h = refl
      by_case false r h = ground arith

  pub any-sorted_by : (xs : List Text) → any p (sorted_by key xs) ≡ any p xs
  unfolding sorted_by
  any-sorted_by [] = refl
  any-sorted_by (a ∷ xs) = any-insert_by a (sorted_by key xs) ∙ ap (p a ||◌) (any-sorted_by xs)

pub text_leb_refl : (s : Text) → text_leb s s ≡ true
unfolding text_leb
text_leb_refl [] = refl
text_leb_refl (c ∷ s) = ground (arith, text_leb_refl s)

text_leb_total : (s t : Text) → text_leb s t ≡ false → text_leb t s ≡ true
unfolding text_leb
text_leb_total [] t h = cc
text_leb_total (c ∷ s) [] h = refl
text_leb_total (c ∷ s) (d ∷ t) h = ground (arith, text_leb_total s t)

text_leb_trans : (s t u : Text) → text_leb s t ≡ true → text_leb t u ≡ true → text_leb s u ≡ true
unfolding text_leb
text_leb_trans [] t u h k = refl
text_leb_trans (c ∷ s) [] u h k = cc
text_leb_trans (c ∷ s) (d ∷ t) [] h k = cc
text_leb_trans (c ∷ s) (d ∷ t) (e ∷ u) h k = ground (arith, text_leb_trans s t u)

text_leb_antisym : (s t : Text) → text_leb s t ≡ true → text_leb t s ≡ true → s ≡ t
unfolding text_leb
text_leb_antisym [] [] h k = refl
text_leb_antisym [] (d ∷ t) h k = cc
text_leb_antisym (c ∷ s) [] h k = cc
text_leb_antisym (c ∷ s) (d ∷ t) h k = ground (arith, text_leb_antisym s t)

-- `sorted(xs)`
unfoldable pub sorted : List Text → List Text
unfolding sorted_by
sorted xs = sorted_by (λ t. t) xs

abbrev pub IsSorted : List Text → Type 0
IsSorted [] = Unit
IsSorted (x ∷ xs) = All (λ y. text_leb x y ≡ true) xs × IsSorted xs

insert_by-All :
    (P : Text → Type 0) (a : Text) (bs : List Text)
    → P a
    → All P bs
    → All P (insert_by (λ t. t) a bs)
unfolding insert_by
insert_by-All P a [] ha hs = (ha, tt)
insert_by-All P a (b ∷ bs) ha hs = elim (Bool-cases (text_leb a b)) [
  | inl le ↦ rw le (ha, hs)
  | inr gt ↦ rw gt (hs.0, insert_by-All P a bs ha hs.1)
]

insert_by-IsSorted : (a : Text) (bs : List Text) → IsSorted bs → IsSorted (insert_by (λ t. t) a bs)
unfolding insert_by
insert_by-IsSorted a [] h = (tt, tt)
insert_by-IsSorted a (b ∷ bs) h = elim (Bool-cases (text_leb a b)) [
  | inl le ↦ rw le ((le, All-implies bs (λ y. text_leb_trans a b y le) h.0), h)
  | inr gt ↦ rw gt (
    insert_by-All (λ y. text_leb b y ≡ true) a bs (text_leb_total a b gt) h.0,
    insert_by-IsSorted a bs h.1,
  )
]

sorted-IsSorted : (xs : List Text) → IsSorted (sorted xs)
unfolding sorted sorted_by
sorted-IsSorted [] = tt
sorted-IsSorted (x ∷ xs) = insert_by-IsSorted x (sorted xs) (sorted-IsSorted xs)

-- The greatest text of a sorted list is its last.
last_of_sorted :
    (d v b : Text) (bs : List Text)
    → IsSorted (b ∷ bs)
    → mem v (b ∷ bs) ≡ true
    → ((w : Text) → mem w (b ∷ bs) ≡ true → text_leb w v ≡ true)
    → get_last_or d (b ∷ bs) ≡ v
unfolding mem
last_of_sorted d v b [] s h top = alone (list_beq_iff b v).0 h
  where
    alone : {x y : Text} → (list_beq x y ≡ true → x ≡ y) → (list_beq x y || false) ≡ true → x ≡ y
    alone f e = ground arith
last_of_sorted d v b (c ∷ bs) s h top = elim (Bool-cases (list_beq b v)) [
  | inl same ↦
      last_of_sorted b v c bs s.1
        (at_head (
          text_leb_antisym c v (top c (mem-tail c b (c ∷ bs) (mem-head c bs)))
            (rw ((list_beq_iff b v).0 same) at s.0.0)))
        (λ w m. top w (mem-tail w b (c ∷ bs) m))
  | inr other ↦ last_of_sorted b v c bs s.1 (rw other at h) (λ w m. top w (mem-tail w b (c ∷ bs) m))
]
  where
    at_head : c ≡ v → mem v (c ∷ bs) ≡ true
    at_head e = rw ((list_beq_iff c v).1 e) refl

mem-any : (a : Text) (xs : List Text) → mem a xs ≡ any (λ x. x == a) xs
unfolding mem
mem-any a [] = refl
mem-any a (x ∷ xs) = ap ((x == a) ||◌) (mem-any a xs)

pub mem-nil : (a : Text) → mem a [] ≢ true
unfolding mem
mem-nil a h = cc

pub mem-sorted : (a : Text) (xs : List Text) → mem a (sorted xs) ≡ mem a xs
unfolding sorted
mem-sorted a xs =
    mem-any a (sorted xs) ∙ any-sorted_by (λ t. t) (λ x. x == a) xs ∙ sym (mem-any a xs)

-- `sorted(xs)[-1]` is the text of `xs` that no other exceeds.
pub last_sorted :
    (d v : Text) (xs : List Text)
    → mem v xs ≡ true
    → ((w : Text) → mem w xs ≡ true → text_leb w v ≡ true)
    → get_last_or d (sorted xs) ≡ v
last_sorted d v xs h top =
    by_case (sorted xs) (sorted-IsSorted xs) (mem-sorted v xs ∙ h)
      (λ w m. top w (sym (mem-sorted w xs) ∙ m))
  where
    by_case :
        (ys : List Text)
        → IsSorted ys
        → mem v ys ≡ true
        → ((w : Text) → mem w ys ≡ true → text_leb w v ≡ true)
        → get_last_or d ys ≡ v
    by_case [] s m t = absurd (mem-nil v m)
    by_case (y ∷ ys) s m t = last_of_sorted d v y ys s m t
