-- ===== src/Check/Coverage.antt =====
-- scripts/check.py: the coverage of a run, which it has with a pack for Java.
pub mod Laws
use deslop.Prelude.{
  ℕ, Bool, true, false, ◌||◌, ◌&&◌, not, List, [], ◌∷◌, ◌++◌, map, Text, codes, Option, none, some,
  any, keep, mem, length, fromkeys, if◌then◌else◌, ◌==◌, nat_eq, list_eq, list_beq, leb, ltb,
}
use deslop.Texts.Order.{sorted_by, insert_by, text_leb}
use deslop.Packs.{Pack, pack_frameworks}

pub record CoverageInfo : Type 0 where
  pub repo_frameworks : List Text
  pub applicable_count : ℕ
  pub suppressed_count : ℕ
  pub uncovered_frameworks : List Text

-- `str(pack.get("lang") or "")`
abbrev pub pack_lang : Option Text → Text
pack_lang none = []
pack_lang (some lang) = lang

unfoldable pub required_of : List Pack → List Text
required_of [] = []
required_of (p ∷ ps) = pack_frameworks p ++ required_of ps

abbrev pub is_java : Pack → Bool
is_java p = pack_lang p.lang == codes "java"

-- `tuple(name for name in names if name.lower() not in detected)`
abbrev pub uncovered : (Text → Text) → List Text → List Text → List Text
uncovered lower detected names = keep (λ name. not (mem (lower name) (map lower detected))) names

abbrev pub coverage_info : (Text → Text) → List Text → List Pack → List Text → CoverageInfo
coverage_info lower detected packs selected = record {
  repo_frameworks = sorted_by lower detected;
  applicable_count = length selected;
  suppressed_count = 0;
  uncovered_frameworks = uncovered lower detected (fromkeys (required_of (keep is_java packs)));
}

-- `lower` is `str.lower`.
unfoldable pub coverage_of : (Text → Text) → List Text → List Pack → List Text → Option CoverageInfo
coverage_of lower detected packs selected =
    if any is_java packs then some (coverage_info lower detected packs selected) else none

abbrev pub covered_frameworks : Option CoverageInfo → List Text
covered_frameworks none = []
covered_frameworks (some c) = c.repo_frameworks

-- `uncovered_pack_frameworks` of `build_report`
abbrev pub uncovered_pack : (Text → Text) → Option CoverageInfo → List Text → List Text
uncovered_pack lower none names = []
uncovered_pack lower (some c) names = uncovered lower c.repo_frameworks names
