-- ===== src/Errors.antt =====
-- The exceptions that the program raises or catches, and results that may be one of them. The
-- messages are kept as what they are made from.
use deslop.Prelude.{Text, List, Option, ◌≡◌, refl}

pub data Raised : Type 0 where
  -- `SystemExit`: skills without a rule id and with another enforcement, a rule that is checked
  -- and has no enforcement, a pack id that no pack has, skills without a pack, an installation that
  -- is refused, and a rollback without a snapshot.
  bad_skills : List Text → List (Text × Option Text) → Raised
  no_enforcement : Text → Raised
  unknown_pack : Text → Raised
  skills_missing_pack : List Text → Raised
  refused : List Text → Raised
  no_snapshots : List Text → Raised
  file_not_found : Text → Raised
  runtime_error : Text → Raised
  key_error : Text → Raised
  value_error : Text → Raised

pub data Result {ℓ} (A : Type ℓ) : Type ℓ where
  ok : A → Result A
  raised : Raised → Result A

module _ {ℓ κ} {A : Type ℓ} {B : Type κ} where
  infixl 5 ◌>>=◌
  abbrev pub ◌>>=◌ : Result A → (A → Result B) → Result B
  raised e >>= next = raised e
  ok a >>= next = next a

  -- Both runs of a sequence that succeeds do.
  pub >>=-eq-ok :
      (m : Result A) (next : A → Result B) {b : B}
      → (m >>= next) ≡ ok b
      → (a : A) × (m ≡ ok a) × (next a ≡ ok b)
  >>=-eq-ok (raised e) next h = cc
  >>=-eq-ok (ok a) next h = (a, refl, h)
