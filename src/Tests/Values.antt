-- ===== src/Tests/Values.antt =====
-- The detectors of defaults and of parsed JSON.
use deslop.Prelude.{
  Bool, true, false, ◌&&◌, [], ◌∷◌, Text, codes, Option, some, any, mem, ◌≡◌, nat_eq, list_eq,
  list_beq, split, replace, contains, starts_with, ends_with, after_last, ◌==◌,
}
use deslop.Checkers.Common.{is_skipped, is_test_path, test_suffix}
use deslop.Tsast.{is_out_of_scope}
use deslop.Detectors.{line_or_one}
use deslop.Detectors.Laws.{lines, Exact, in_facts}
use deslop.Detectors.Typescript.Values.{
  Call, Facts, default_rule, detect_default, detect_json, is_json_method, schema_wrap,
  looks_external,
}
use deslop.Detectors.Typescript.Values.Laws.{is_default, values-Exact}

abbrev parsed : Call
parsed = record {
  name = codes "JSON.parse";
  in_try = false;
  in_handler = true;
  arg_count = 1;
  first_arg_kind = some (codes "identifier");
  first_arg_name = codes "body";
  arg_origins = [];
  args_summary = codes "body" ∷ [];
  stringify_roundtrip = false;
  wrapped_by = codes "schema.check";
  line = some 4;
}

abbrev facts : Facts
facts = record {
  binaries =
      record {
        op = codes "||";
        left_kind = codes "property";
        left_callee = [];
        right_kind = codes "number";
        right_value = some (codes "10");
        line = some 2;
      }
      ∷ [];
  calls =
      parsed
      ∷ record parsed { in_try = true; line = some 5 }
      ∷ record parsed { name = codes "ctx.req.json"; arg_count = 0; line = some 6 }
      ∷ [];
}

abbrev load : Text → Text → Option Facts
load source filename = some facts

abbrev nonzero : Text → Option Bool
nonzero raw = some true

abbrev lower : Text → Text
lower s = s

abbrev app : Text
app = codes "a.ts"

values-Exact_example :
    Exact default_rule
      (λ n.
        in_facts
          (is_out_of_scope app false)
          (load [] app)
          (λ facts. any (λ b. (line_or_one b.line == n) && is_default nonzero b) facts.binaries))
      (detect_default load nonzero [] app)
    × (lines (detect_json load lower [] app) ≡ 4 ∷ 6 ∷ [])
unfolding is_out_of_scope is_skipped is_test_path test_suffix split replace mem list_beq contains
    starts_with ends_with after_last is_json_method schema_wrap looks_external
values-Exact_example = values-Exact load nonzero lower [] app
