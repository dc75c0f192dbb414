-- ===== src/Packs/Skills.antt =====
-- scripts/pack_lib.py: the skills' directories, what their files SKILL.md say, and the globs of a
-- pack's skills.
use deslop.Prelude.{
  ℕ, Bool, List, [], ◌∷◌, Text, codes, Option, none, some, Dict, assign, fromkeys, drop,
  starts_with, if◌then◌else◌, ◌==◌, nat_eq, list_eq,
}
use deslop.Errors.{
  Result, ok, raised, ◌>>=◌, file_not_found, value_error, key_error, skills_missing_pack,
}
use deslop.Packs.{Pack, Skill, or_nil, is_kind}
use deslop.Texts.Order.{sorted}

-- What the program reads of a skill's frontmatter: `description`, and `pack` and `kind` of `metadata`.
pub record Frontmatter : Type 0 where
  pub description : Option Text
  pub pack : Option Text
  pub kind : Option Text

pub record Manifest : Type 0 where
  pub pack_id : Text
  pub version : Text
  pub layout : Text
  pub installed_at : Text

pub record RuleHeader : Type 0 where
  pub description : Text
  pub globs : Text
  pub always_apply : Bool

-- PyYAML: `load_frontmatter` is `safe_load(…) or {}` of a frontmatter and `load_version` the `version`
-- of a manifest, where it is not empty; the others are `safe_dump`.
pub record Yaml : Type 0 where
  pub load_frontmatter : Text → Frontmatter
  pub load_version : Text → Option Text
  pub dump_manifest : Manifest → Text
  pub dump_rule : RuleHeader → Text
  pub dump_apply_to : Text → Text

-- A directory of skills/ and its SKILL.md, if it has one.
pub record SkillDir : Type 0 where
  pub name : Text
  pub skill_md : Option Text

abbrev pub marker : Text
marker = codes "---"

abbrev onto_cut : ℕ → Option (Text × Text) → Option (Text × Text)
onto_cut c none = none
onto_cut c (some (a, b)) = some (c ∷ a, b)

-- What stands before the first `---`, and what behind it.
unfoldable pub cut : Text → Option (Text × Text)
cut [] = none
cut (c ∷ s) =
    let rest = cut s in if starts_with (c ∷ s) marker then some ([], drop 2 s) else onto_cut c rest

abbrev second_part : Text → Option (Text × Text) → Result (Text × Text)
second_part text none = raised (value_error text)
second_part text (some parts) = ok parts

abbrev third_parts : Text → Option (Text × Text) → Result (Text × Text)
third_parts text none = raised (value_error text)
third_parts text (some (a, b)) = second_part text (cut b)

-- `_, fm, body = text.split("---", 2)`
unfoldable pub parts_of : Text → Result (Text × Text)
unfolding cut
parts_of text = third_parts text (cut text)

unfoldable pub lstrip_newlines : Text → Text
lstrip_newlines [] = []
lstrip_newlines (c ∷ s) = let rest = lstrip_newlines s in if c == b'\n' then rest else c ∷ s

-- `(skill_dir / "SKILL.md").read_text()`
abbrev pub skill_text : SkillDir → Result Text
skill_text s = elim s.skill_md [ none ↦ raised (file_not_found s.name) | some t ↦ ok t ]

unfoldable pub skill_markdown_body : SkillDir → Result Text
skill_markdown_body s = do
  text ← skill_text s
  if starts_with text marker
      then (parts_of text >>= λ parts. ok (lstrip_newlines parts.1))
      else ok text

-- The two lists of `invariant_skill_dirs`.
pub record Matches : Type 0 where
  pub missing : List Text
  pub matched : List SkillDir

module _ (yaml : Yaml) where
  unfoldable pub parse_frontmatter : Text → Result Frontmatter
  unfolding parts_of
  parse_frontmatter text =
      if starts_with text marker
      then (parts_of text >>= λ parts. ok (yaml.load_frontmatter parts.0))
      else ok (record { description = none; pack = none; kind = none })

  unfoldable pub parse_skill_frontmatter : SkillDir → Result Frontmatter
  unfolding parse_frontmatter
  parse_skill_frontmatter s = do text ← skill_text s; parse_frontmatter text

  abbrev sort_pack : Text → SkillDir → Option Text → Matches → Matches
  sort_pack wanted s none m = record m { missing = s.name ∷ m.missing }
  sort_pack wanted s (some []) m = record m { missing = s.name ∷ m.missing }
  sort_pack wanted s (some (c ∷ id)) m =
      if (c ∷ id) == wanted then record m { matched = s ∷ m.matched } else m

  -- One round of the loop, before the later ones.
  unfoldable pub sort_skill : Text → SkillDir → Frontmatter → Matches → Matches
  sort_skill wanted s fm m =
      if is_kind (codes "pack-index") fm.kind then m else sort_pack wanted s fm.pack m

  unfoldable pub survey_dirs : Text → List SkillDir → Result Matches
  survey_dirs wanted [] = ok (record { missing = []; matched = [] })
  survey_dirs wanted (s ∷ ss) = elim s.skill_md [
    | none ↦ survey_dirs wanted ss
    | some text ↦ parse_frontmatter text >>= λ fm.
        survey_dirs wanted ss >>= λ m. ok (sort_skill wanted s fm m)
  ]

  abbrev accept_matches : List Text → List SkillDir → Result (List SkillDir)
  accept_matches [] matched = ok matched
  accept_matches (n ∷ missing) matched = raised (skills_missing_pack (sorted (n ∷ missing)))

  unfoldable pub invariant_skill_dirs : List SkillDir → Text → Result (List SkillDir)
  unfolding sorted survey_dirs
  invariant_skill_dirs dirs wanted =
      survey_dirs wanted dirs >>= λ m. accept_matches m.missing m.matched

-- `str(skill[key])`
abbrev pub required : Text → Option Text → Result Text
required key none = raised (key_error key)
required key (some t) = ok t

unfoldable pub skill_globs_onto : Dict Text Text → List Skill → Result (Dict Text Text)
skill_globs_onto d [] = ok d
skill_globs_onto d (s ∷ ss) = do
  name ← required (codes "name") s.name
  globs ← required (codes "globs") s.globs
  skill_globs_onto (assign name globs d) ss

unfoldable pub pack_skill_globs : Pack → Result (Dict Text Text)
unfolding skill_globs_onto
pack_skill_globs p = skill_globs_onto [] (or_nil p.skills)

unfoldable pub all_globs : List Skill → Result (List Text)
all_globs [] = ok []
all_globs (s ∷ ss) = do
  globs ← required (codes "globs") s.globs
  rest ← all_globs ss
  ok (globs ∷ rest)

unfoldable pub pack_glob_union : Pack → Result (List Text)
unfolding all_globs
pack_glob_union p = all_globs (or_nil p.skills) >>= λ globs. ok (fromkeys globs)
