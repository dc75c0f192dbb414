-- ===== src/Tests/Data.antt =====
-- A pack, a repository and two detectors for the tests.
use deslop.Prelude.{
  false, [], ◌∷◌, Text, codes, none, some, Dict, contains, if◌then◌else◌, ◌==◌, list_eq, nat_eq,
  String,
}
use deslop.Packs.{Pack, Skill}
use deslop.Checkers.Run.{Repo, Entry, Detector, hits}

abbrev pub skill : String → String → Skill
skill rule kind = record {
  name = some (codes rule);
  rule_id = some (codes rule);
  enforcement = some (codes kind);
  globs = some (codes "**/*.kt");
}

abbrev pub android : Pack
android = record {
  pack_id = codes "stopthatslop-android-v1";
  lang = some (codes "android");
  skills = some (skill "scope" "checker" ∷ skill "copy" "teach-only" ∷ []);
  engine = none;
  mine = some (record { rule_ids = some (codes "scope" ∷ codes "copy" ∷ codes "scope" ∷ []) });
  frameworks = none;
  collisions = none;
  version = some (codes "1.0.0");
  install_namespace = none;
}

abbrev pub entry : String → String → String → Entry
entry rel name text = record {
  rel = codes rel;
  name = codes name;
  abs = codes "/repo/";
  text = some (codes text);
}

abbrev pub main_kt : Entry
main_kt = entry "app/Main.kt" "Main.kt" "GlobalScope.launch {}"

abbrev pub test_kt : Entry
test_kt = entry "app/MainTest.kt" "MainTest.kt" "GlobalScope.launch {}"

abbrev pub build_kt : Entry
build_kt = entry "build/Gen.kt" "Gen.kt" "GlobalScope.launch {}"

abbrev pub repo : Repo
repo = record {
  exists = λ _. false;
  is_file = λ _. false;
  read = λ _. none;
  rglob = λ suffix. if suffix == codes ".kt" then main_kt ∷ test_kt ∷ build_kt ∷ [] else [];
  locate = λ raw. if raw == codes "app/Main.kt" then some main_kt else none;
}

abbrev pub detector : String → Detector
detector rule = record {
  rule_id = codes rule;
  lang = codes "android";
  detect = λ source filename. hits (
      if contains source (codes "GlobalScope")
      then record { line = 1; message = codes "found"; rule_id = codes rule } ∷ []
      else []);
}

abbrev pub catalog : Dict Text Detector
catalog = (codes "copy", detector "copy") ∷ (codes "scope", detector "scope") ∷ []
