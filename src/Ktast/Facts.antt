-- ===== src/Ktast/Facts.antt =====
-- The facts that checkers/ktast_client.py returns, and its searches for the class and the function
-- around a line.
use deslop.Prelude.{ℕ, Bool, ◌&&◌, List, [], ◌∷◌, Text, Option, none, some, if◌then◌else◌, leb}
use deslop.Ktast.Literals.{StringLit}

pub record Class : Type 0 where
  pub name : Text
  pub line_start : ℕ
  pub line_end : ℕ
  pub supers : List Text
  pub annotations : List Text

pub record Call : Type 0 where
  pub name : Text
  pub line : ℕ
  pub trailing_lambda : Bool
  pub in_function : Option Text

pub record Function : Type 0 where
  pub name : Text
  pub line_start : ℕ
  pub line_end : ℕ
  pub annotations : List Text
  pub owner : Option Text
  pub is_composable : Bool
  pub is_preview : Bool
  pub calls : List Call

pub record Facts : Type 0 where
  pub classes : List Class
  pub functions : List Function
  pub calls : List Call
  pub string_lits : List StringLit

abbrev pub spans : ℕ → ℕ → ℕ → Bool
spans line line_start line_end = leb line_start line && leb line line_end

abbrev pub or_found {ℓ} : {A : Type ℓ} → Option A → Option A → Option A
or_found none later = later
or_found (some a) later = some a

-- `_class_at`: the last class of the list that spans the line; the loop is over `reversed(classes)`.
unfoldable pub class_at : ℕ → List Class → Option Class
class_at line [] = none
class_at line (cls ∷ classes) =
    or_found (class_at line classes)
      (if spans line cls.line_start cls.line_end then some cls else none)
