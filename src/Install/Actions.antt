-- ===== src/Install/Actions.antt =====
-- The steps of scripts/install.py: changes of the files that may end in an exception, which leaves what
-- has been changed. What a step leaves alone is stated of all its outcomes.
use deslop.Prelude.{
  Bool, true, false, if◌then◌else◌, List, Text, lookup, ◌≡◌, refl, ◌∙◌, nat_eq, list_eq,
}
use deslop.Errors.{Result, ok, raised}
use deslop.Install.Files.{FileTree}

abbrev pub M : Type 0 → Type 0
M A = FileTree → FileTree × Result A

abbrev pub and_then : {A B : Type 0} → (A → M B) → FileTree × Result A → FileTree × Result B
and_then next (fs, raised e) = (fs, raised e)
and_then next (fs, ok a) = next a fs

infixl 5 ◌>>=◌ ◌>>◌
unfoldable pub ◌>>=◌ : {A B : Type 0} → M A → (A → M B) → M B
◌>>=◌ m next fs = and_then next (m fs)

abbrev pub ◌>>◌ : {B : Type 0} → M (Unit {0}) → M B → M B
m >> next = m >>= λ _. next

unfoldable pub pure : {A : Type 0} → A → M A
pure a fs = (fs, ok a)

unfoldable pub lift : {A : Type 0} → Result A → M A
lift r fs = (fs, r)

unfoldable pub change : (FileTree → FileTree) → M (Unit {0})
change f fs = (f fs, ok tt)

unfoldable pub get : {A : Type 0} → (FileTree → A) → M A
get f fs = (fs, ok (f fs))

-- What stands at the paths of a set is the same behind a change, and behind a step.
abbrev pub Keeps : (List Text → Bool) → (FileTree → FileTree) → Type 0
Keeps r f = (fs : FileTree) (p : List Text) → r p ≡ true → lookup p (f fs) ≡ lookup p fs

pub record Leaves {A : Type 0} (r : List Text → Bool) (m : M A) : Type 0 where
  pub keeps : Keeps r (λ fs. (m fs).0)

module _ (r : List Text → Bool) where
  pub Leaves-and_then :
      {A B : Type 0} (m : M A) (next : A → M B)
      → Leaves r m
      → ((a : A) → Leaves r (next a))
      → Leaves r (m >>= next)
  unfolding ◌>>=◌
  Leaves-and_then {A} m next hm hn = record {
    keeps = λ fs p hp. by_case fs p hp (m fs) (hm.keeps fs p hp);
  }
    where
      by_case :
          (fs : FileTree) (p : List Text)
          → r p ≡ true
          → (o : FileTree × Result A) → lookup p o.0 ≡ lookup p fs
          → lookup p (and_then next o).0 ≡ lookup p fs
      by_case fs p hp (fs', raised e) h = h
      by_case fs p hp (fs', ok a) h = (hn a).keeps fs' p hp ∙ h

  pub Leaves-change : (f : FileTree → FileTree) → Keeps r f → Leaves r (change f)
  unfolding change
  Leaves-change f h = record { keeps = h }

  pub Leaves-lift : {A : Type 0} (o : Result A) → Leaves r (lift o)
  unfolding lift
  Leaves-lift o = record { keeps = λ fs p h. refl }

  pub Leaves-get : {A : Type 0} (f : FileTree → A) → Leaves r (get f)
  unfolding get
  Leaves-get f = record { keeps = λ fs p h. refl }

  pub Leaves-pure : {A : Type 0} (a : A) → Leaves r (pure a)
  unfolding pure
  Leaves-pure a = record { keeps = λ fs p h. refl }

  pub Leaves-if :
      {A : Type 0} (b : Bool) (m n : M A) → Leaves r m → Leaves r n → Leaves r (if b then m else n)
  Leaves-if true m n hm hn = hm
  Leaves-if false m n hm hn = hn

  -- A change and a result before the other steps.
  pub after_change :
      {A : Type 0} (f : FileTree → FileTree) (next : M A)
      → Keeps r f
      → Leaves r next
      → Leaves r (change f >> next)
  after_change f next h k = Leaves-and_then (change f) (λ _. next) (Leaves-change f h) (λ _. k)

  pub after_lift :
      {A B : Type 0} (o : Result A) (next : A → M B)
      → ((a : A) → Leaves r (next a))
      → Leaves r (lift o >>= next)
  after_lift o next k = Leaves-and_then (lift o) next (Leaves-lift o) k

  -- A question that decides between two steps.
  pub after_test :
      {A : Type 0} (f : FileTree → Bool) (m n : M A)
      → Leaves r m
      → Leaves r n
      → Leaves r (get f >>= λ b. if b then m else n)
  after_test f m n hm hn =
      Leaves-and_then (get f) (λ b. if b then m else n) (Leaves-get f) (λ b. Leaves-if b m n hm hn)

-- Both runs of a sequence that succeeds do, and its end is that of the second.
pub and_then-ok :
    {A B : Type 0} (m : M A) (next : A → M B) (fs : FileTree) (b : B)
    → ((m >>= next) fs).1 ≡ ok b
    → (a : A) × ((m fs).1 ≡ ok a) × ((m >>= next) fs ≡ next a (m fs).0)
unfolding ◌>>=◌
and_then-ok {A} {B} m next fs b h = by_case (m fs) h
  where
    by_case :
        (o : FileTree × Result A)
        → (and_then next o).1 ≡ ok b
        → (a : A) × (o.1 ≡ ok a) × (and_then next o ≡ next a o.0)
    by_case (fs', raised e) h = cc
    by_case (fs', ok a) h = (a, refl, refl)

-- A property of the files that a step does not end.
pub record Preserves {A : Type 0} (P : FileTree → Type 0) (m : M A) : Type 0 where
  pub still : (fs : FileTree) → P fs → P (m fs).0

module _ (P : FileTree → Type 0) where
  pub Preserves-and_then :
      {A B : Type 0} (m : M A) (next : A → M B)
      → Preserves P m
      → ((a : A) → Preserves P (next a))
      → Preserves P (m >>= next)
  unfolding ◌>>=◌
  Preserves-and_then {A} m next hm hn = record { still = λ fs h. by_case (m fs) (hm.still fs h) }
    where
      by_case : (o : FileTree × Result A) → P o.0 → P (and_then next o).0
      by_case (fs', raised e) h = h
      by_case (fs', ok a) h = (hn a).still fs' h

  pub Preserves-change :
      (f : FileTree → FileTree) → ((fs : FileTree) → P fs → P (f fs)) → Preserves P (change f)
  unfolding change
  Preserves-change f h = record { still = h }

  pub Preserves-lift : {A : Type 0} (o : Result A) → Preserves P (lift o)
  unfolding lift
  Preserves-lift o = record { still = λ fs h. h }
