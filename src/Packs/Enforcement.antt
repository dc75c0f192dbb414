-- ===== src/Packs/Enforcement.antt =====
-- Which rules a pack enforces, and how: `skill_enforcement_map`, `checker_rule_ids` and
-- `teach_only_rule_ids` of scripts/pack_lib.py against what the skills declare.
use deslop.Prelude.{
  true, List, [], ◌∷◌, ◌++◌, Text, Option, none, some, mem, mem-head, mem-tail, Dict, lookup,
  if◌then◌else◌, ◌==◌, nat_eq, list_eq, ◌≡◌, ◌≢◌, refl, arith, All, lookup-assign, ap, ◌∙◌, sym,
  Bool-cases, inl, inr, list_beq_iff, Option-cases,
}
use deslop.Errors.{Raised, Result, ok, raised}
use deslop.Packs.{
  Skill, Pack, Survey, check_rule_ids, valid_enforcement, or_else, or_nil, survey_rule,
  survey_skill, survey_skills, blank_survey, require_enforcement, accept, skill_enforcement_map,
}

-- A skill that names a rule and one of the two enforcements.
abbrev pub IsEnforcement : Option Text → Type 0
IsEnforcement none = ⊥
IsEnforcement (some k) = mem k valid_enforcement ≡ true

abbrev pub IsSound : Skill → Type 0
IsSound skill = (or_else skill.rule_id none ≢ none) × IsEnforcement skill.enforcement

-- What one skill, by its rule id if it has one, leaves declared for the rule `r`.
abbrev pub declare_by : Text → Option Text → Option Text → Option Text → Option Text
declare_by r none enforcement found = found
declare_by r (some j) enforcement found = if j == r then enforcement else found

-- The enforcement that the last skill for a rule declares.
abbrev pub declared_onto : Text → Option Text → List Skill → Option Text
declared_onto r found [] = found
declared_onto r found (skill ∷ skills) =
    declared_onto r (declare_by r (or_else skill.rule_id none) skill.enforcement found) skills

abbrev pub declared : Text → Pack → Option Text
declared r p = declared_onto r none (or_nil p.skills)

abbrev IsClean : Survey → Type 0
IsClean v = (v.missing ≡ []) × (v.invalid ≡ [])

snoc-ne-nil {ℓ} : {A : Type ℓ} (xs : List A) (x : A) → xs ++ x ∷ [] ≢ []
snoc-ne-nil [] x h = cc
snoc-ne-nil (y ∷ xs) x h = cc

module _ (v : Survey) where
  -- The survey after a sound skill: clean as before, with the declaration taken over.
  abbrev Takes : Option Text → Option Text → Survey → Type 0
  Takes rule_id enforcement w =
      (w.missing ≡ v.missing)
      × (w.invalid ≡ v.invalid)
      × ((r : Text) → lookup r w.mapping ≡ declare_by r rule_id enforcement (lookup r v.mapping))

  survey_rule-Takes :
      (j : Text) (e : Option Text) (n : Text)
      → IsEnforcement e
      → Takes (some j) e (survey_rule j e n v)
  unfolding survey_rule
  survey_rule-Takes j none n h = absurd h
  survey_rule-Takes j (some e) n h = rw h (refl, refl, λ r. lookup-assign j r e v.mapping)

  survey_skill-Takes :
      (o : Option Text) (skill : Skill)
      → o ≢ none
      → IsEnforcement skill.enforcement
      → Takes o skill.enforcement (survey_skill o skill v)
  unfolding survey_skill
  survey_skill-Takes none skill ne h = absurd (ne refl)
  survey_skill-Takes (some j) skill ne h = survey_rule-Takes j skill.enforcement _ h

  survey_rule-IsClean :
      (j : Text) (e : Option Text) (n : Text)
      → IsClean (survey_rule j e n v)
      → IsEnforcement e × IsClean v
  unfolding survey_rule
  survey_rule-IsClean j none n h = absurd (snoc-ne-nil v.invalid _ h.1)
  survey_rule-IsClean j (some e) n h = elim (Bool-cases (mem e valid_enforcement)) [
    | inl good ↦ (good, rw good at h)
    | inr bad ↦ absurd (snoc-ne-nil v.invalid _ (rw bad at h).1)
  ]

  survey_skill-IsClean :
      (o : Option Text) (skill : Skill)
      → IsClean (survey_skill o skill v)
      → ((o ≢ none) × IsEnforcement skill.enforcement) × IsClean v
  unfolding survey_skill
  survey_skill-IsClean none skill h = absurd (snoc-ne-nil v.missing _ h.0)
  survey_skill-IsClean (some j) skill h =
      let (good, clean) = survey_rule-IsClean j skill.enforcement _ h in (((λ e. cc), good), clean)

survey_skills-declared :
    (skills : List Skill) (v : Survey)
    → All IsSound skills
    → IsClean v
    → IsClean (survey_skills skills v)
      × ((r : Text)
          → lookup r (survey_skills skills v).mapping ≡ declared_onto r (lookup r v.mapping) skills)
unfolding survey_skills
survey_skills-declared [] v h c = (c, λ r. refl)
survey_skills-declared (skill ∷ skills) v (sound, h) c =
    let o : Option Text = or_else skill.rule_id none in
    let (missing, invalid, taken) = survey_skill-Takes v o skill sound.0 sound.1 in
    let (clean, all) =
      survey_skills-declared skills (survey_skill o skill v) h (missing ∙ c.0, invalid ∙ c.1) in
    (clean, λ r. all r ∙ ap (λ found. declared_onto r found skills) (taken r))

survey_skills-IsSound :
    (skills : List Skill) (v : Survey)
    → IsClean (survey_skills skills v)
    → All IsSound skills × IsClean v
unfolding survey_skills
survey_skills-IsSound [] v c = (tt, c)
survey_skills-IsSound (skill ∷ skills) v c =
    let o : Option Text = or_else skill.rule_id none in
    let (sounds, c') = survey_skills-IsSound skills (survey_skill o skill v) c in
    let (sound, c'') = survey_skill-IsClean v o skill c' in ((sound, sounds), c'')

-- Every listed rule is a key.
abbrev pub Covers : List Text → Dict Text Text → Type 0
Covers ids m = (r : Text) → mem r ids ≡ true → lookup r m ≢ none

Covers-cons :
    (j : Text) (ids : List Text) (m : Dict Text Text) {k : Text}
    → lookup j m ≡ some k
    → Covers ids m
    → Covers (j ∷ ids) m
unfolding mem
Covers-cons j ids m found h r listed absent = ground (arith, list_beq_iff j r, h r)

raised_ne_ok {ℓ κ} :
    {A : Type ℓ} {B : Type κ} {e : Raised} {a : A} → ◌≡◌ {A = Result A} (raised e) (ok a) → B
raised_ne_ok h = cc

require_enforcement-Covers :
    (ids : List Text) (m : Dict Text Text) {m' : Dict Text Text}
    → require_enforcement ids m ≡ ok m'
    → (m ≡ m') × Covers ids m
unfolding require_enforcement mem
require_enforcement-Covers [] m h = (cc, λ r listed absent. cc)
require_enforcement-Covers (j ∷ ids) m h = elim (Option-cases (lookup j m)) [
  | inl absent ↦ raised_ne_ok (rw (absent, require_enforcement) at h)
  | inr (k, found) ↦
      let (same, all) = require_enforcement-Covers ids m (rw (found, require_enforcement) at h) in
      (same, Covers-cons j ids m found all)
]

require_enforcement-eq :
    (ids : List Text) (m : Dict Text Text) → Covers ids m → require_enforcement ids m ≡ ok m
unfolding require_enforcement
require_enforcement-eq [] m h = refl
require_enforcement-eq (j ∷ ids) m h = elim (Option-cases (lookup j m)) [
  | inl absent ↦ absurd (h j (mem-head j ids) absent)
  | inr (k, found) ↦
      rw (found, require_enforcement)
        (require_enforcement-eq ids m (λ r listed. h r (mem-tail r j ids listed)))
]

accept-parts :
    (p : Pack) (m : Dict Text Text) (missing : List Text) (invalid : List (Text × Option Text))
    {m' : Dict Text Text}
    → accept p m missing invalid ≡ ok m'
    → (missing ≡ []) × (invalid ≡ []) × (require_enforcement (check_rule_ids p) m ≡ ok m')
unfolding accept
accept-parts p m [] [] h = (refl, refl, h)
accept-parts p m [] (x ∷ xs) h = raised_ne_ok h
accept-parts p m (x ∷ xs) invalid h = raised_ne_ok h

-- All skills of the pack are sound, and every rule that it checks is declared.
pub record IsComplete (p : Pack) : Type 0 where
  pub sound : All IsSound (or_nil p.skills)
  pub covered : (r : Text) → mem r (check_rule_ids p) ≡ true → declared r p ≢ none

abbrev survey : Pack → Survey
survey p = survey_skills (or_nil p.skills) blank_survey

survey-declared :
    (p : Pack)
    → All IsSound (or_nil p.skills)
    → IsClean (survey p) × ((r : Text) → lookup r (survey p).mapping ≡ declared r p)
unfolding lookup
survey-declared p h = survey_skills-declared (or_nil p.skills) blank_survey h (refl, refl)

-- A map that `skill_enforcement_map` returns holds for each rule what the last skill for it
-- declares, and the pack is then complete: each skill names a rule and one of the two enforcements,
-- and each checked rule is declared.
pub skill_enforcement_map-declared :
    (p : Pack) {m : Dict Text Text}
    → skill_enforcement_map p ≡ ok m
    → IsComplete p × ((r : Text) → lookup r m ≡ declared r p)
unfolding skill_enforcement_map
skill_enforcement_map-declared p {m} h =
    let (missing, invalid, required) = accept-parts p _ _ _ h in
    let sound = (survey_skills-IsSound (or_nil p.skills) blank_survey (missing, invalid)).0 in
    let (clean, all) = survey-declared p sound in
    let (same, covers) = require_enforcement-Covers (check_rule_ids p) _ required in
    (
      record { sound = sound; covered = λ r listed absent. covers r listed (all r ∙ absent) },
      λ r. rw (← same) (all r),
    )

accept-nil :
    (p : Pack) (m : Dict Text Text) (missing : List Text) (invalid : List (Text × Option Text))
    → missing ≡ []
    → invalid ≡ []
    → accept p m missing invalid ≡ require_enforcement (check_rule_ids p) m
unfolding accept
accept-nil p m [] [] e f = refl
accept-nil p m [] (x ∷ xs) e f = cc
accept-nil p m (x ∷ xs) invalid e f = cc

-- For a complete pack `skill_enforcement_map` returns a map and does not exit.
pub skill_enforcement_map_total :
    (p : Pack) → IsComplete p → (m : Dict Text Text) × (skill_enforcement_map p ≡ ok m)
unfolding skill_enforcement_map
skill_enforcement_map_total p c =
    let (clean, all) = survey-declared p c.sound in
    (
      (survey p).mapping,
      accept-nil p (survey p).mapping _ _ clean.0 clean.1
          ∙ require_enforcement-eq (check_rule_ids p) _
              (λ r listed absent. c.covered r listed (sym (all r) ∙ absent)),
    )
