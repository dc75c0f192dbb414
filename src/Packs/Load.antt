-- ===== src/Packs/Load.antt =====
-- scripts/pack_lib.py: finding a pack by its id, its folder or an alias. The packs are those that the
-- files of `all_pack_yamls` hold, in that order.
use deslop.Prelude.{
  ℕ, Bool, true, ◌&&◌, ◌||◌, List, [], ◌∷◌, ◌++◌, Text, codes, Option, none, some, leb, Dict,
  lookup, if◌then◌else◌, ◌==◌, nat_eq, list_eq, list_beq, ◌≡◌, ◌≢◌, refl, arith, ap, Bool-cases,
  inl, inr, All, list_beq_iff, any,
}
use deslop.Errors.{unknown_pack, Result, ok, raised}
use deslop.Packs.{Pack}

abbrev is_digit : ℕ → Bool
is_digit c = leb b'0' c && leb c b'9'

-- Digits up to the end, or to a line break that ends the text: `\d+$` behind its first digit. What is
-- left of the text is put out.
unfoldable pub digits_end : Text → Option Text
digits_end [] = some []
digits_end (c ∷ s) =
    let rest = digits_end s in
    if is_digit c then rest else if (c ∷ s) == codes "\n" then some (codes "\n") else none

-- `-v\d+$` at the beginning of the text.
unfoldable pub version_suffix : Text → Option Text
unfolding digits_end
version_suffix (a ∷ b ∷ c ∷ s) =
    if a == b'-' && (b == b'v' && is_digit c) then digits_end s else none
version_suffix _ = none

-- `_PACK_FOLDER_VERSION_SUFFIX.sub("", …)`; the match at the leftmost place ends the text.
unfoldable pub strip_version : Text → Text
strip_version [] = []
strip_version (c ∷ s) = elim (version_suffix (c ∷ s)) [
  | none ↦ c ∷ strip_version s
  | some rest ↦ rest
]

unfoldable pub pack_folder_name : Pack → Text
pack_folder_name p = strip_version p.pack_id

abbrev pub pack_aliases : Dict Text Text
pack_aliases =
    (codes "java", codes "stopthatslop-java-spring-v1")
    ∷ (codes "python", codes "stopthatslop-python-fastapi-v1")
    ∷ (codes "ts", codes "stopthatslop-ts-node-v1")
    ∷ (codes "typescript", codes "stopthatslop-ts-node-v1")
    ∷ (codes "go", codes "stopthatslop-go-v1")
    ∷ (codes "android", codes "stopthatslop-android-v1")
    ∷ []

abbrev or_same : Text → Option Text → Text
or_same t none = t
or_same t (some u) = u

-- `PACK_ALIASES.get(pack_id, pack_id)`
unfoldable pub wanted : Text → Text
wanted pack_id = or_same pack_id (lookup pack_id pack_aliases)

abbrev pub answers : Text → Pack → Bool
answers pack_id p = (p.pack_id == wanted pack_id) || (pack_folder_name p == pack_id)

unfoldable pub load_pack_by_id : List Pack → Text → Result Pack
load_pack_by_id [] pack_id = raised (unknown_pack pack_id)
load_pack_by_id (p ∷ ps) pack_id =
    let rest = load_pack_by_id ps pack_id in if answers pack_id p then ok p else rest

-- A text of digits, not empty.
abbrev IsNumber : Text → Type 0
IsNumber ds = (ds ≢ []) × All (λ c. is_digit c ≡ true) ds

digits_end-IsNumber : (ds : Text) → All (λ c. is_digit c ≡ true) ds → digits_end ds ≡ some []
unfolding digits_end
digits_end-IsNumber [] h = refl
digits_end-IsNumber (c ∷ ds) h = rw h.0 (digits_end-IsNumber ds h.1)

version_suffix-IsNumber : (ds : Text) → IsNumber ds → version_suffix (b'-' ∷ b'v' ∷ ds) ≡ some []
unfolding version_suffix
version_suffix-IsNumber [] h = absurd (h.0 refl)
version_suffix-IsNumber (c ∷ ds) h = rw h.1.0 (digits_end-IsNumber ds h.1.1)

-- No version stands in the text, wherever the other text is cut off behind it.
abbrev NoVersion : Text → Text → Type 0
NoVersion [] rest = Unit
NoVersion (c ∷ s) rest = (version_suffix (c ∷ (s ++ rest)) ≡ none) × NoVersion s rest

strip_version-append :
    (base ds : Text)
    → IsNumber ds
    → NoVersion base (b'-' ∷ b'v' ∷ ds)
    → strip_version (base ++ b'-' ∷ b'v' ∷ ds) ≡ base
unfolding strip_version
strip_version-append [] ds n h = rw (version_suffix-IsNumber ds n, strip_version) refl
strip_version-append (c ∷ base) ds n h =
    rw (h.0, strip_version) (ap (c ∷◌) (strip_version-append base ds n h.1))

any-pack :
    (pack_id : Text) (before after : List Pack) (p : Pack)
    → answers pack_id p ≡ true
    → any (answers pack_id) (before ++ p ∷ after) ≡ true
any-pack pack_id [] after p h = rw h
any-pack pack_id (q ∷ before) after p h = ground (arith, any-pack pack_id before after p h)

load_pack_by_id-answers :
    (ps : List Pack) (pack_id : Text)
    → any (answers pack_id) ps ≡ true
    → (q : Pack) × (load_pack_by_id ps pack_id ≡ ok q) × (answers pack_id q ≡ true)
unfolding load_pack_by_id
load_pack_by_id-answers [] pack_id h = cc
load_pack_by_id-answers (p ∷ ps) pack_id h = elim (Bool-cases (answers pack_id p)) [
  | inl found ↦ (p, rw found, found)
  | inr other ↦
      let (q, loaded, answered) = load_pack_by_id-answers ps pack_id (rw other at h) in
      (q, rw other loaded, answered)
]

answers_folder :
    (p : Pack) (base ds : Text)
    → p.pack_id ≡ base ++ b'-' ∷ b'v' ∷ ds
    → IsNumber ds
    → NoVersion base (b'-' ∷ b'v' ∷ ds)
    → answers base p ≡ true
unfolding pack_folder_name
answers_folder p base ds named n h =
    or_true (list_beq p.pack_id (wanted base)) (
      (list_beq_iff (strip_version p.pack_id) base).1 (rw named (strip_version-append base ds n h)))
  where
    or_true : (a : Bool) {b : Bool} → b ≡ true → (a || b) ≡ true
    or_true a h = ground arith

-- A pack whose id is a text and a version suffix is found by that text, in which no version suffix
-- begins: the lookup returns a pack, which has that folder or the id that the text is an alias for.
pub load_pack_by_id_folder :
    (before after : List Pack) (p : Pack) (base ds : Text)
    → p.pack_id ≡ base ++ b'-' ∷ b'v' ∷ ds
    → IsNumber ds
    → NoVersion base (b'-' ∷ b'v' ∷ ds)
    → (q : Pack) × (load_pack_by_id (before ++ p ∷ after) base ≡ ok q) × (answers base q ≡ true)
load_pack_by_id_folder before after p base ds named n h =
    load_pack_by_id-answers (before ++ p ∷ after) base
      (any-pack base before after p (answers_folder p base ds named n h))
