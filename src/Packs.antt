-- ===== src/Packs.antt =====
-- scripts/pack_lib.py: what a pack says of its rules and their enforcement. A pack is a mapping that
-- PyYAML loads; a key that may be absent or null is an `Option`.
pub mod Enforcement
pub mod Kinds
pub mod Load
pub mod Frameworks
pub mod Skills
use deslop.Prelude.{
  ℕ, Bool, true, false, ◌&&◌, ◌||◌, not, List, [], ◌∷◌, ◌++◌, Text, codes, Option, none, some, mem,
  fromkeys, fromkeys_onto, Dict, lookup, assign, if◌then◌else◌, ◌==◌, nat_eq, list_eq, list_beq,
}
use deslop.Errors.{Raised, bad_skills, no_enforcement, key_error, Result, ok, raised, ◌>>=◌}

pub record Skill : Type 0 where
  pub name : Option Text
  pub rule_id : Option Text
  pub enforcement : Option Text
  pub globs : Option Text

-- The mappings `engine` and `mine`.
pub record RuleGroup : Type 0 where
  pub rule_ids : Option (List Text)

pub record Pack : Type 0 where
  pub pack_id : Text
  pub lang : Option Text
  pub skills : Option (List Skill)
  pub engine : Option RuleGroup
  pub mine : Option RuleGroup
  pub frameworks : Option (List Text)
  pub collisions : Option (List Text)
  pub version : Option Text
  pub install_namespace : Option Text

-- `value or []`
abbrev pub or_nil {ℓ} : {A : Type ℓ} → Option (List A) → List A
or_nil none = []
or_nil (some xs) = xs

abbrev group_ids : Option RuleGroup → List Text
group_ids none = []
group_ids (some g) = or_nil g.rule_ids

unfoldable pub engine_rule_ids : Pack → List Text
engine_rule_ids p = group_ids p.engine

unfoldable pub mine_rule_ids : Pack → List Text
mine_rule_ids p = group_ids p.mine

unfoldable pub check_rule_ids : Pack → List Text
check_rule_ids p = fromkeys (engine_rule_ids p ++ mine_rule_ids p)

abbrev pub pack_frameworks : Pack → List Text
pack_frameworks p = or_nil p.frameworks

abbrev pub checker : Text
checker = codes "checker"

abbrev pub teach_only : Text
teach_only = codes "teach-only"

abbrev pub valid_enforcement : List Text
valid_enforcement = checker ∷ teach_only ∷ []

-- `a or b`, on texts that may be missing
abbrev pub or_else : Option Text → Option Text → Option Text
or_else none b = b
or_else (some []) b = b
or_else (some (c ∷ s)) b = some (c ∷ s)

abbrev pub get_or : Text → Option Text → Text
get_or d none = d
get_or d (some t) = t

-- The loop's variables `mapping`, `missing` and `invalid`.
pub record Survey : Type 0 where
  pub mapping : Dict Text Text
  pub missing : List Text
  pub invalid : List (Text × Option Text)

abbrev skill_name : Skill → Text
skill_name skill = get_or (codes "<unnamed>") (or_else skill.name skill.rule_id)

-- `enforcement not in VALID_ENFORCEMENT`, and the assignment to the mapping
unfoldable pub survey_rule : Text → Option Text → Text → Survey → Survey
survey_rule rule_id none name v = record v { invalid = v.invalid ++ (name, none) ∷ [] }
survey_rule rule_id (some enforcement) name v =
    if mem enforcement valid_enforcement
    then record v { mapping = assign rule_id enforcement v.mapping }
    else record v { invalid = v.invalid ++ (name, some enforcement) ∷ [] }

-- One round of the loop over the skills, on `or_else rule_id none`: `none` where `not rule_id`.
unfoldable pub survey_skill : Option Text → Skill → Survey → Survey
survey_skill none skill v = record v { missing = v.missing ++ skill_name skill ∷ [] }
survey_skill (some rule_id) skill v = survey_rule rule_id skill.enforcement (skill_name skill) v

unfoldable pub survey_skills : List Skill → Survey → Survey
survey_skills [] v = v
survey_skills (skill ∷ skills) v =
    survey_skills skills (survey_skill (or_else skill.rule_id none) skill v)

abbrev pub blank_survey : Survey
blank_survey = record { mapping = []; missing = []; invalid = [] }

-- The loop that looks each rule id up.
unfoldable pub require_enforcement : List Text → Dict Text Text → Result (Dict Text Text)
require_enforcement [] mapping = ok mapping
require_enforcement (rule_id ∷ rule_ids) mapping = elim (lookup rule_id mapping) [
  | none ↦ raised (no_enforcement rule_id)
  | some _ ↦ require_enforcement rule_ids mapping
]

-- `if missing or invalid: raise`, and the check behind it
unfoldable pub accept :
    Pack → Dict Text Text → List Text → List (Text × Option Text) → Result (Dict Text Text)
accept p mapping [] [] = require_enforcement (check_rule_ids p) mapping
accept p mapping missing invalid = raised (bad_skills missing invalid)

unfoldable pub skill_enforcement_map : Pack → Result (Dict Text Text)
skill_enforcement_map p =
    let v = survey_skills (or_nil p.skills) blank_survey in accept p v.mapping v.missing v.invalid

-- `value == kind`, of a value that may be missing
abbrev pub is_kind : Text → Option Text → Bool
is_kind kind none = false
is_kind kind (some k) = k == kind

-- `tuple(r for r in rule_ids if mapping[r] == kind)`
unfoldable pub select_enforced : Text → Dict Text Text → List Text → Result (List Text)
select_enforced kind mapping [] = ok []
select_enforced kind mapping (rule_id ∷ rule_ids) = elim (lookup rule_id mapping) [
  | none ↦ raised (key_error rule_id)
  | some k ↦ select_enforced kind mapping rule_ids >>= λ rest.
      ok (if k == kind then rule_id ∷ rest else rest)
]

unfoldable pub checker_rule_ids : Pack → Result (List Text)
checker_rule_ids p = do
  mapping ← skill_enforcement_map p
  select_enforced checker mapping (check_rule_ids p)

unfoldable pub teach_only_rule_ids : Pack → Result (List Text)
teach_only_rule_ids p = do
  mapping ← skill_enforcement_map p
  select_enforced teach_only mapping (check_rule_ids p)
