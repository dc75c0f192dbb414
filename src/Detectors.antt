-- ===== src/Detectors.antt =====
-- The detectors checkers/no_*.py over syntax facts, and the loop that they share: an item of the facts
-- is reported once for its line, where it is one that the detector reports.
pub mod Laws
pub mod Python
pub mod Handlers
pub mod Android
pub mod Typescript
pub mod Sql
use deslop.Prelude.{
  ℕ, zero, suc, Bool, true, false, List, [], ◌∷◌, ◌++◌, map, Text, Option, none, some, mem,
  if◌then◌else◌, ◌==◌, nat_eq,
}
use deslop.Checkers.Common.{Finding}

-- `int(item.get("line") or 1)`
abbrev pub line_or_one : Option ℕ → ℕ
line_or_one none = 1
line_or_one (some zero) = 1
line_or_one (some (suc n)) = suc n

-- What a detector makes of an item: its line, and the message if the item is reported.
pub record Item : Type 0 where
  pub line : ℕ
  pub message : Option Text

-- `seen`, with what is left of the items.
unfoldable pub report_once : Text → List ℕ → List Item → List Finding
report_once rule_id seen [] = []
report_once rule_id seen (item ∷ items) = elim item.message [
  | none ↦ report_once rule_id seen items
  | some message ↦
      let again = report_once rule_id seen items in
      let rest = report_once rule_id (item.line ∷ seen) items in
      if mem item.line seen
      then again
      else record { line = item.line; message = message; rule_id = rule_id } ∷ rest
]

-- `for fn in functions: for item in fn.get(…) or []`, one after the other.
unfoldable pub each {ℓ} : {A : Type ℓ} → (A → List Item) → List A → List Item
each items [] = []
each items (x ∷ xs) = items x ++ each items xs

-- `facts = load_facts(…)`, and what follows `if not facts`.
abbrev pub detect_in {ℓ} : {A : Type ℓ} → Bool → Option A → (A → List Finding) → List Finding
detect_in true facts found = []
detect_in false none found = []
detect_in false (some facts) found = found facts
