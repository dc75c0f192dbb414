-- ===== src/Tests/Typescript.antt =====
-- The TypeScript detectors.
use deslop.Prelude.{
  true, false, [], ◌∷◌, Text, codes, Option, none, some, mem, ◌≡◌, nat_eq, list_eq, list_beq, split,
  replace, contains, starts_with, ends_with, after_last,
}
use deslop.Checkers.Common.{is_skipped, is_test_path, test_suffix}
use deslop.Tsast.{is_out_of_scope}
use deslop.Detectors.Laws.{lines, Exact}
use deslop.Detectors.Typescript.{
  Facts, import_rule, effect_rule, element_rule, detect_import, detect_effect, detect_element,
  detect_fetch, detect_catch,
}
use deslop.Detectors.Typescript.Laws.{typescript-Exact, import_lines, effect_lines, element_lines}

abbrev facts : Facts
facts = record {
  imports =
      record {
        kind = codes "static";
        is_type_only = false;
        source = codes "lodash/union";
        line = some 2;
      }
      ∷ [];
  effects =
      record {
        kind = [];
        has_timeout = true;
        has_interval = false;
        has_cleanup_timer = false;
        has_cleanup_abort = false;
        line = some 3;
      }
      ∷ [];
  jsx =
      record {
        tag = codes "input";
        attrs = codes "defaultChecked" ∷ codes "checked" ∷ [];
        line = some 4;
      }
      ∷ [];
  calls =
      record {
        name = codes "window.fetch";
        callee_is_local = false;
        has_signal_option = false;
        resolved_signal = false;
        options_unknown = false;
        line = some 5;
      }
      ∷ [];
  catch_clauses =
      record { body_empty = true; in_handler = true; try_has_call = none; line = none } ∷ [];
}

abbrev load : Text → Text → Option Facts
load source filename = some facts

abbrev app : Text
app = codes "a.tsx"

typescript-Exact_example :
    Exact import_rule (import_lines load [] app) (detect_import load [] app)
    × Exact effect_rule (effect_lines load [] app) (detect_effect load [] app)
    × Exact element_rule (element_lines load [] app) (detect_element load [] app)
    × (lines (detect_fetch load [] app) ≡ 5 ∷ [])
    × (lines (detect_catch load [] app) ≡ 1 ∷ [])
unfolding is_out_of_scope is_skipped is_test_path test_suffix split replace mem list_beq contains
    starts_with ends_with after_last
typescript-Exact_example = typescript-Exact load [] app
