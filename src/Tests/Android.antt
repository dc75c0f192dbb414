-- ===== src/Tests/Android.antt =====
-- The Android detectors.
use deslop.Prelude.{
  ◌==◌, ℕ, true, false, [], ◌∷◌, Text, String, codes, Option, some, mem, ◌≡◌, nat_eq, list_eq,
  list_beq, split, replace, contains, starts_with, ends_with, after_last,
}
use deslop.Checkers.Common.{is_skipped, is_test_path, test_suffix}
use deslop.Ktast.Facts.{Call, Facts, class_at}
use deslop.Detectors.Laws.{lines}
use deslop.Detectors.Android.{
  detect_scope, detect_runblocking, is_runblocking, is_self_def, is_okhttp_boundary, is_viewmodel,
  is_ui_owner, is_ui_name, names_of,
}
use deslop.Texts.Strip.{strip}
use deslop.Detectors.Android.Secrets.{Searches, detect_secrets, placeholder}
use deslop.Detectors.Android.Secrets.Laws.{android-Exact}

abbrev call : String → ℕ → Call
call name at = record {
  name = codes name;
  line = at;
  trailing_lambda = true;
  in_function = some (codes "load");
}

abbrev facts : Facts
facts = record {
  classes =
      record {
        name = codes "Main";
        line_start = 1;
        line_end = 9;
        supers = codes "androidx.ComponentActivity" ∷ [];
        annotations = [];
      }
      ∷ [];
  functions =
      record {
        name = codes "load";
        line_start = 2;
        line_end = 8;
        annotations = [];
        owner = some (codes "Main");
        is_composable = false;
        is_preview = false;
        calls = [];
      }
      ∷ [];
  calls = call "kotlinx.GlobalScope.async" 3 ∷ call "runBlocking" 4 ∷ [];
  string_lits = record { line = 5; value = codes "sk_live_0123456789" } ∷ [];
}

abbrev load : Text → Text → Option Facts
load source filename = some facts

abbrev main_kt : Text
main_kt = codes "Main.kt"

abbrev searches : Searches
searches = record {
  prefix = λ s. contains s (codes "sk_live_");
  secret_ident = λ s. contains s (codes "secret");
  ui_ident = λ s. ends_with s (codes "label");
  placeholder_re = λ s. contains s (codes "example");
  empty = λ s. s == [];
  assign_idents = λ s. [];
}

android-Exact_example :
    (mem 3 (lines (detect_scope load [] main_kt)) ≡ true)
    × (mem 4 (lines (detect_runblocking load [] main_kt)) ≡ true)
    × (mem 5 (lines (detect_secrets searches load (split b'\n') [] main_kt)) ≡ true)
unfolding is_skipped is_test_path test_suffix split replace mem list_beq contains starts_with
    ends_with after_last is_runblocking is_self_def is_okhttp_boundary names_of class_at
    is_viewmodel is_ui_owner is_ui_name strip placeholder
android-Exact_example = (
  (android-Exact load searches (split b'\n') [] main_kt).0.lines_hit 3,
  (android-Exact load searches (split b'\n') [] main_kt).1.lines_hit 4,
  (android-Exact load searches (split b'\n') [] main_kt).2.lines_hit 5,
)
