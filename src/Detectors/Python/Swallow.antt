-- ===== src/Detectors/Python/Swallow.antt =====
-- checkers/no_except_exception_pass_swallow.py: handlers that catch everything and do nothing.
use deslop.Prelude.{
  Bool, true, false, ◌&&◌, ◌||◌, not, List, [], ◌∷◌, ◌++◌, map, Text, codes, Option, none, some,
  mem, any, keep, split, after_last, if◌then◌else◌, ◌==◌, nat_eq, list_eq, list_beq, list_beq_iff,
  ◌≡◌, refl, arith, ap, sym, Bool-cases, inl, inr,
}
use deslop.Texts.Strip.{strip}
use deslop.Checkers.Common.{Finding, is_skipped}
use deslop.Detectors.{Item, line_or_one, report_once, detect_in}
use deslop.Detectors.Laws.{Exact, in_facts, detect_in-Exact, any-items, any-ext}
use deslop.Pyast.Facts.{ExceptHandler, Facts}
use deslop.Detectors.Python.{python}

abbrev pub swallowed : List Text
swallowed = codes "Exception" ∷ codes "BaseException" ∷ []

abbrev pub body : List Text
body = codes "pass" ∷ codes "ellipsis" ∷ []

abbrev pub skip_funcs : List Text
skip_funcs = codes "__del__" ∷ codes "__exit__" ∷ codes "__aexit__" ∷ []

abbrev pub is_cons : Text → Bool
is_cons [] = false
is_cons (_ ∷ _) = true

-- `_types` of a text
unfoldable pub types : Text → List Text
types raw = keep is_cons (map strip (split b'|' raw))

abbrev is_swallowed : Text → Bool
is_swallowed n = mem n swallowed || mem (after_last b'.' n) swallowed

abbrev catches : Option Text → Bool
catches none = true
catches (some typ) = any is_swallowed (types typ)

unfoldable pub is_broad_swallow : ExceptHandler → Bool
is_broad_swallow handler = if not (mem handler.body_kind body) then false else catches handler.type

abbrev pub is_hook : Option Text → Bool
is_hook none = false
is_hook (some f) = mem f skip_funcs

abbrev kind_of : Option Text → Text
kind_of none = codes "bare except"
kind_of (some typ) = codes "except " ++ typ

unfoldable pub swallow_item : ExceptHandler → Item
swallow_item handler = record {
  line = line_or_one handler.line;
  message =
      if is_hook handler.in_function
      then none
      else if not (is_broad_swallow handler)
      then none
      else some (kind_of handler.type ++ codes " swallows with pass/ellipsis");
}

abbrev pub swallow_rule : Text
swallow_rule = codes "python.reliability.no-except-exception-pass-swallow"

-- The handler names no type, or one whose last component is `Exception` or `BaseException`.
abbrev pub catches_all : Option Text → Bool
catches_all none = true
catches_all (some typ) = any (λ n. mem (after_last b'.' n) swallowed) (types typ)

abbrev pub swallows : ExceptHandler → Bool
swallows h = not (is_hook h.in_function) && (mem h.body_kind body && catches_all h.type)

-- A name without dots is its last component, so the first test finds nothing more.
after_last-swallowed :
    (n : Text) → mem n swallowed ≡ true → mem (after_last b'.' n) swallowed ≡ true
unfolding mem after_last split list_beq
after_last-swallowed n h = elim (Bool-cases (codes "Exception" == n)) [
  | inl e ↦
      ap (λ t. mem (after_last b'.' t) swallowed) (sym ((list_beq_iff (codes "Exception") n).0 e))
  | inr other ↦
      ap (λ t. mem (after_last b'.' t) swallowed)
        (sym ((list_beq_iff (codes "BaseException") n).0 (last_of _ _ other h)))
]
  where
    last_of : (a b : Bool) → a ≡ false → (a || (b || false)) ≡ true → b ≡ true
    last_of a b e h = ground arith

is_swallowed-eq : (n : Text) → is_swallowed n ≡ mem (after_last b'.' n) swallowed
is_swallowed-eq n = elim (Bool-cases (mem n swallowed)) [
  | inl e ↦ rw (e, after_last-swallowed n e) refl
  | inr e ↦ rw e refl
]

catches-eq : (o : Option Text) → catches o ≡ catches_all o
catches-eq none = refl
catches-eq (some typ) = any-ext _ _ (types typ) is_swallowed-eq

module _ (load_facts : Text → Text → Option Facts) where
  unfoldable pub detect_swallow : Text → Text → List Finding
  detect_swallow source filename =
      detect_in (is_skipped filename python false) (load_facts source filename)
        (λ facts. report_once swallow_rule [] (map swallow_item facts.except_handlers))

  -- The detector has one finding for each line with a handler that does nothing, stands in no
  -- destructor or context exit, and names no type or one whose last component is `Exception` or
  -- `BaseException`, in a file in scope with facts, and no other finding.
  pub detect_swallow-Exact :
      (source filename : Text)
      → Exact swallow_rule
          (λ n.
            in_facts
              (is_skipped filename python false)
              (load_facts source filename)
              (λ facts. any (λ h. (line_or_one h.line == n) && swallows h) facts.except_handlers))
          (detect_swallow source filename)
  unfolding detect_swallow swallow_item is_broad_swallow
  detect_swallow-Exact source filename = detect_in-Exact swallow_rule _ _ _ _ (λ facts n.
      any-items n swallow_item _ facts.except_handlers (λ h. ground (arith, catches-eq h.type)))
