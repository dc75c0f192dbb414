-- ===== src/Detectors/Laws.antt =====
-- What the loop of the detectors reports.
use deslop.Prelude.{
  ℕ, Bool, true, false, ◌&&◌, ◌||◌, not, List, [], ◌∷◌, map, Text, Option, none, some, mem,
  if◌then◌else◌, ◌==◌, nat_eq, any, any-append, any-map, ◌≡◌, refl, arith, All, Distinct, mem-head,
  Bool-cases, Option-cases, inl, inr, ◌∙◌, ap,
}
use deslop.Checkers.Common.{Finding}
use deslop.Detectors.{Item, report_once, each, detect_in}

abbrev pub is_some {ℓ} : {A : Type ℓ} → Option A → Bool
is_some none = false
is_some (some _) = true

abbrev pub lines : List Finding → List ℕ
lines = map (λ f. f.line)

-- The item is reported, and for the line `n`.
abbrev pub hits_line : ℕ → Item → Bool
hits_line n item = (item.line == n) && is_some item.message

-- What the findings of a detector are, for the items that its loop goes through.
pub record Reports (rule_id : Text) (items : List Item) (out : List Finding) : Type 0 where
  pub distinct : Distinct (lines out)
  pub lines_hit : (n : ℕ) → mem n (lines out) ≡ any (hits_line n) items
  pub ruled : All (λ f. f.rule_id ≡ rule_id) out

-- An item of a line that was seen, and one of a line that was not.
seen_line :
    (line n : ℕ) (seen : List ℕ) (rest : Bool)
    → mem line seen ≡ true
    → (not (mem n seen) && rest) ≡ (not (mem n seen) && (((line == n) && true) || rest))
seen_line line n seen rest h = ground arith

new_line :
    (line n : ℕ) (seen : List ℕ) (rest : Bool)
    → mem line seen ≡ false
    → ((line == n) || (not ((line == n) || mem n seen) && rest))
      ≡ (not (mem n seen) && (((line == n) && true) || rest))
new_line line n seen rest h = ground arith

module _ (rule_id : Text) where
  mem-report_once :
      (items : List Item) (seen : List ℕ) (n : ℕ)
      → mem n (lines (report_once rule_id seen items))
        ≡ (not (mem n seen) && any (hits_line n) items)
  unfolding report_once mem
  mem-report_once [] seen n = ground arith
  mem-report_once (item ∷ items) seen n = elim (Option-cases item.message) [
    | inl quiet ↦ rw (quiet, report_once) (mem-report_once items seen n ∙ ground arith)
    | inr (m, told) ↦
        rw (told, report_once)
          (elim (Bool-cases (mem item.line seen)) [
            | inl old ↦ rw old (mem-report_once items seen n ∙ seen_line item.line n seen _ old)
            | inr new ↦ rw new (
                ap ((item.line == n) ||◌) (mem-report_once items (item.line ∷ seen) n)
                ∙ new_line item.line n seen _ new)
          ])
  ]

  report_once-Distinct :
      (items : List Item) (seen : List ℕ) → Distinct (lines (report_once rule_id seen items))
  unfolding report_once mem
  report_once-Distinct [] seen = tt
  report_once-Distinct (item ∷ items) seen = elim (Option-cases item.message) [
    | inl quiet ↦ rw (quiet, report_once) (report_once-Distinct items seen)
    | inr (m, told) ↦
        rw (told, report_once)
          (elim (Bool-cases (mem item.line seen)) [
            | inl old ↦ rw old (report_once-Distinct items seen)
            | inr new ↦ rw new (
              mem-report_once items (item.line ∷ seen) item.line
                  ∙ rw (mem-head item.line seen) refl,
              report_once-Distinct items (item.line ∷ seen),
            )
          ])
  ]

  report_once-ruled :
      (items : List Item) (seen : List ℕ)
      → All (λ f. f.rule_id ≡ rule_id) (report_once rule_id seen items)
  unfolding report_once mem
  report_once-ruled [] seen = tt
  report_once-ruled (item ∷ items) seen = elim (Option-cases item.message) [
    | inl quiet ↦ rw (quiet, report_once) (report_once-ruled items seen)
    | inr (m, told) ↦
        rw (told, report_once)
          (elim (Bool-cases (mem item.line seen)) [
            | inl old ↦ rw old (report_once-ruled items seen)
            | inr new ↦ rw new (refl, report_once-ruled items (item.line ∷ seen))
          ])
  ]

  pub report_once-Reports :
      (items : List Item) → Reports rule_id items (report_once rule_id [] items)
  unfolding mem
  report_once-Reports items = record {
    distinct = report_once-Distinct items [];
    lines_hit = λ n. mem-report_once items [] n;
    ruled = report_once-ruled items [];
  }

pub any-each {ℓ} :
    {A : Type ℓ} (p : Item → Bool) (items : A → List Item) (xs : List A)
    → any p (each items xs) ≡ any (λ x. any p (items x)) xs
unfolding each
any-each p items [] = refl
any-each p items (x ∷ xs) =
    any-append p (items x) (each items xs) ∙ ap (any p (items x) ||◌) (any-each p items xs)

-- The findings have one line each, those for which `hit` holds, and they carry the rule.
pub record Exact (rule_id : Text) (hit : ℕ → Bool) (out : List Finding) : Type 0 where
  pub distinct : Distinct (lines out)
  pub lines_hit : (n : ℕ) → mem n (lines out) ≡ hit n
  pub ruled : All (λ f. f.rule_id ≡ rule_id) out

-- The file is in scope, its facts are there, and they hit.
abbrev pub in_facts {ℓ} : {A : Type ℓ} → Bool → Option A → (A → Bool) → Bool
in_facts true facts hit = false
in_facts false none hit = false
in_facts false (some facts) hit = hit facts

nothing-Exact : (rule_id : Text) → Exact rule_id (λ _. false) []
unfolding mem
nothing-Exact rule_id = record { distinct = tt; lines_hit = λ n. refl; ruled = tt }

pub detect_in-Exact {ℓ} :
    {A : Type ℓ} (rule_id : Text) (skip : Bool) (facts : Option A) (items : A → List Item)
    (hit : A → ℕ → Bool)
    → ((a : A) (n : ℕ) → any (hits_line n) (items a) ≡ hit a n)
    → Exact rule_id
        (λ n. in_facts skip facts (λ a. hit a n))
        (detect_in skip facts (λ a. report_once rule_id [] (items a)))
detect_in-Exact rule_id true facts items hit h = nothing-Exact rule_id
detect_in-Exact rule_id false none items hit h = nothing-Exact rule_id
detect_in-Exact rule_id false (some facts) items hit h =
    let r = report_once-Reports rule_id (items facts) in
    record { distinct = r.distinct; lines_hit = λ n. r.lines_hit n ∙ h facts n; ruled = r.ruled }

pub any-ext {ℓ} :
    {A : Type ℓ} (p q : A → Bool) (xs : List A) → ((a : A) → p a ≡ q a) → any p xs ≡ any q xs
any-ext p q [] h = refl
any-ext p q (x ∷ xs) h = rw (h x, any-ext p q xs h) refl

pub any-items {ℓ} :
    {A : Type ℓ} (n : ℕ) (item : A → Item) (hit : A → Bool) (xs : List A)
    → ((a : A) → hits_line n (item a) ≡ hit a)
    → any (hits_line n) (map item xs) ≡ any hit xs
any-items n item hit xs h = any-map (hits_line n) item xs ∙ any-ext _ hit xs h

pub any-each_items {ℓ} :
    {A : Type ℓ} (n : ℕ) (items : A → List Item) (hit : A → Bool) (xs : List A)
    → ((a : A) → any (hits_line n) (items a) ≡ hit a)
    → any (hits_line n) (each items xs) ≡ any hit xs
any-each_items n items hit xs h = any-each (hits_line n) items xs ∙ any-ext _ hit xs h

-- The items of a function that is passed over unless `test` holds of it.
pub any-tested :
    (n : ℕ) (test : Bool) (items : List Item) {hit : Bool}
    → any (hits_line n) items ≡ hit
    → any (hits_line n) (if test then items else []) ≡ (test && hit)
any-tested n true items h = h
any-tested n false items h = refl
