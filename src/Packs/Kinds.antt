-- ===== src/Packs/Kinds.antt =====
-- The rules of each enforcement: `checker_rule_ids` and `teach_only_rule_ids` of
-- scripts/pack_lib.py.
use deslop.Prelude.{
  true, List, [], ◌∷◌, Text, Option, none, some, mem, mem-head, mem-tail, Dict, lookup, ◌==◌,
  nat_eq, list_eq, ◌≡◌, ◌≢◌, refl, arith, All, ap, keep, ◌∙◌, sym, Bool-cases, inl, inr,
  list_beq_iff, Option-cases, ◌⊎◌,
}
use deslop.Errors.{ok}
use deslop.Packs.{
  Skill, Pack, check_rule_ids, checker, teach_only, valid_enforcement, or_else, or_nil, is_kind,
  select_enforced, checker_rule_ids, teach_only_rule_ids,
}
use deslop.Packs.Enforcement.{
  IsEnforcement, IsSound, declare_by, declared_onto, declared, IsComplete, Covers,
  skill_enforcement_map_total, skill_enforcement_map-declared,
}

IsEnforcement-mem :
    (e : Option Text) (j : Text) → IsEnforcement e → e ≡ some j → mem j valid_enforcement ≡ true
IsEnforcement-mem none j h q = cc
IsEnforcement-mem (some k) j h q = ap (λ t. mem t valid_enforcement) (some-path (sym q)) ∙ h
  where
    some-path : ◌≡◌ {A = Option Text} (some j) (some k) → j ≡ k
    some-path h = cc

declare_by-valid :
    (r : Text) (o e found : Option Text)
    → IsEnforcement e
    → ((j : Text) → found ≡ some j → mem j valid_enforcement ≡ true)
    → (j : Text) → declare_by r o e found ≡ some j
    → mem j valid_enforcement ≡ true
declare_by-valid r none e found s v j q = v j q
declare_by-valid r (some i) e found s v j q = elim (Bool-cases (i == r)) [
  | inl same ↦ IsEnforcement-mem e j s (rw same at q)
  | inr other ↦ v j (rw other at q)
]

declared_onto-valid :
    (r : Text) (skills : List Skill) (found : Option Text)
    → All IsSound skills
    → ((j : Text) → found ≡ some j → mem j valid_enforcement ≡ true)
    → (k : Text) → declared_onto r found skills ≡ some k
    → mem k valid_enforcement ≡ true
declared_onto-valid r [] found h v k e = v k e
declared_onto-valid r (skill ∷ skills) found h v k e =
    declared_onto-valid r skills _ h.1
      (declare_by-valid r (or_else skill.rule_id none) skill.enforcement found h.0.1 v) k e

select_enforced-keep :
    (kind : Text) (m : Dict Text Text) (d : Text → Option Text) (ids : List Text)
    → ((r : Text) → lookup r m ≡ d r)
    → Covers ids m
    → select_enforced kind m ids ≡ ok (keep (λ r. is_kind kind (d r)) ids)
unfolding select_enforced
select_enforced-keep kind m d [] e h = refl
select_enforced-keep kind m d (r ∷ ids) e h = elim (Option-cases (lookup r m)) [
  | inl absent ↦ absurd (h r (mem-head r ids) absent)
  | inr (k, found) ↦
      rw
        (
          found,
          select_enforced,
          select_enforced-keep kind m d ids e (λ j listed. h j (mem-tail j r ids listed)),
        )
        (rw (sym (e r) ∙ found) (ground arith))
]

mem-valid : (k : Text) → mem k valid_enforcement ≡ true → (k ≡ checker) ⊎ (k ≡ teach_only)
unfolding mem
mem-valid k h = elim (Bool-cases (checker == k)) [
  | inl e ↦ inl (sym ((list_beq_iff checker k).0 e))
  | inr e ↦ inr (sym ((list_beq_iff teach_only k).0 (ground arith)))
]

-- A complete pack has its checked rules in two lists, those declared `checker` and those declared
-- `teach-only`, in the order of `check_rule_ids`, and every checked rule is declared as one of the
-- two.
pub checker_rule_ids-teach_only_rule_ids :
    (p : Pack)
    → IsComplete p
    → (checker_rule_ids p ≡ ok (keep (λ r. is_kind checker (declared r p)) (check_rule_ids p)))
      × (teach_only_rule_ids p
          ≡ ok (keep (λ r. is_kind teach_only (declared r p)) (check_rule_ids p)))
      × ((r : Text)
          → mem r (check_rule_ids p) ≡ true
          → (declared r p ≡ some checker) ⊎ (declared r p ≡ some teach_only))
unfolding checker_rule_ids teach_only_rule_ids
checker_rule_ids-teach_only_rule_ids p c =
    let (m, mapped) = skill_enforcement_map_total p c in
    let (_, all) = skill_enforcement_map-declared p mapped in
    let covers : Covers (check_rule_ids p) m =
      λ r listed absent. c.covered r listed (sym (all r) ∙ absent) in
    (
      rw mapped (select_enforced-keep checker m (λ r. declared r p) (check_rule_ids p) all covers),
      rw mapped
          (select_enforced-keep teach_only m (λ r. declared r p) (check_rule_ids p) all covers),
      λ r listed. one_of r (declared r p) refl (c.covered r listed),
    )
  where
    one_of :
        (r : Text) (o : Option Text)
        → declared r p ≡ o
        → declared r p ≢ none
        → (declared r p ≡ some checker) ⊎ (declared r p ≡ some teach_only)
    one_of r none e ne = absurd (ne e)
    one_of r (some k) e ne =
        elim (mem-valid k (declared_onto-valid r (or_nil p.skills) none c.sound (λ j q. cc) k e)) [
          | inl q ↦ inl (e ∙ ap some q)
          | inr q ↦ inr (e ∙ ap some q)
        ]
