-- ===== src/Detectors/Typescript/Values.antt =====
-- checkers/no_or_default_for_nonzero_number.py and no_unguarded_json_parse_on_external_input.py, with the
-- facts that they read. `float`, as far as the result is zero or not, and `str.lower` are parameters.
pub mod Laws
use deslop.Prelude.{
  ℕ, Bool, true, false, ◌&&◌, ◌||◌, not, List, [], ◌∷◌, ◌++◌, map, Text, codes, Option, none, some,
  mem, any, ends_with, contains, after_last, replace, if◌then◌else◌, ◌==◌, nat_eq, list_eq,
  list_beq,
}
use deslop.Texts.Join.{join}
use deslop.Checkers.Common.{Finding}
use deslop.Tsast.{is_out_of_scope}
use deslop.Detectors.{Item, line_or_one, report_once, detect_in}
use deslop.Detectors.Typescript.{report_each}

pub record Binary : Type 0 where
  pub op : Text
  pub left_kind : Text
  pub left_callee : Text
  pub right_kind : Text
  pub right_value : Option Text
  pub line : Option ℕ

pub record Call : Type 0 where
  pub name : Text
  pub in_try : Bool
  pub in_handler : Bool
  pub arg_count : ℕ
  pub first_arg_kind : Option Text
  pub first_arg_name : Text
  pub arg_origins : List Text
  pub args_summary : List Text
  pub stringify_roundtrip : Bool
  pub wrapped_by : Text
  pub line : Option ℕ

pub record Facts : Type 0 where
  pub binaries : List Binary
  pub calls : List Call

abbrev pub number_callees : List Text
number_callees = codes "Number" ∷ codes "parseInt" ∷ codes "parseFloat" ∷ []

-- `node.get("left_kind") or "other"` is neither of the kinds where it is empty.
unfoldable pub left_in_scope : Binary → Bool
left_in_scope node =
    if node.left_kind == codes "identifier" || node.left_kind == codes "property"
    then true
    else if node.left_kind == codes "call"
    then mem node.left_callee number_callees || ends_with node.left_callee (codes ".Number")
    else false

abbrev or_false : Option Bool → Bool
or_false none = false
or_false (some b) = b

-- `nonzero` is whether the float that a text stands for is not zero, with none for a `ValueError`.
abbrev pub nonzero_number : (Text → Option Bool) → Option Text → Bool
nonzero_number nonzero none = false
nonzero_number nonzero (some []) = false
nonzero_number nonzero (some (c ∷ raw)) = or_false (nonzero (c ∷ raw))

abbrev or_empty : Option Text → Text
or_empty none = []
or_empty (some t) = t

unfoldable pub default_item : (Text → Option Bool) → Binary → Item
default_item nonzero node = record {
  line = line_or_one node.line;
  message =
      if not (node.op == codes "||")
      then none
      else if not (node.right_kind == codes "number")
      then none
      else if not (nonzero_number nonzero node.right_value)
      then none
      else if not (left_in_scope node)
      then none
      else some (
          codes "`|| "
          ++ (or_empty node.right_value
              ++ (codes "` treats 0 as missing; use `?? "
                  ++ (or_empty node.right_value ++ codes "` so an explicit zero is preserved"))));
}

abbrev pub schema_last : List Text
schema_last =
    codes "parse"
    ∷ codes "safeParse"
    ∷ codes "parseAsync"
    ∷ codes "safeParseAsync"
    ∷ codes "parseJson"
    ∷ codes "decode"
    ∷ codes "fromJson"
    ∷ codes "parseUnknown"
    ∷ codes "decodeUnknown"
    ∷ []

abbrev pub json_methods : List Text
json_methods =
    codes "request.json" ∷ codes "req.json" ∷ codes "response.json" ∷ codes "res.json" ∷ []

abbrev pub external_names : List Text
external_names =
    codes "body"
    ∷ codes "payload"
    ∷ codes "raw"
    ∷ codes "rawbody"
    ∷ codes "raw_body"
    ∷ codes "webhook"
    ∷ codes "req"
    ∷ codes "request"
    ∷ codes "query"
    ∷ codes "searchparams"
    ∷ codes "event"
    ∷ []

abbrev pub external_needles : List Text
external_needles =
    codes ".text"
    ∷ codes ".body"
    ∷ codes "req."
    ∷ codes "request."
    ∷ codes "response."
    ∷ codes "res."
    ∷ codes "event.data"
    ∷ codes "payload"
    ∷ codes "webhook"
    ∷ codes "rawbody"
    ∷ codes "raw_body"
    ∷ []

unfoldable pub schema_wrap : Text → Bool
schema_wrap [] = false
schema_wrap (c ∷ wrapped_by) = mem (after_last b'.' (c ∷ wrapped_by)) schema_last

abbrev pub first_or_empty : List Text → Text
first_or_empty [] = []
first_or_empty (origin ∷ origins) = origin

unfoldable pub looks_external : (Text → Text) → Call → Bool
unfolding join
looks_external lower call =
    let name = replace b'\\' b'/' call.first_arg_name in
    let blob = lower (
      join (codes " ")
        (first_or_empty call.arg_origins ∷ name ∷ join (codes " ") call.args_summary ∷ [])) in
    if call.in_handler
    then true
    else if mem (lower (after_last b'.' name)) external_names
    then true
    else any (contains blob) external_needles

unfoldable pub is_json_method : Text → Bool
is_json_method name =
    mem name json_methods
    || (ends_with name (codes ".request.json")
        || (ends_with name (codes ".req.json") || ends_with name (codes ".response.json")))

abbrev pub is_literal : Option Text → Bool
is_literal none = false
is_literal (some kind) = kind == codes "string_literal"

abbrev json_message : Call → Text
json_message call = call.name ++ codes "() parses external JSON outside try; wrap in try/catch"

unfoldable pub json_item : (Text → Text) → Call → Item
unfolding is_json_method schema_wrap looks_external
json_item lower call = record {
  line = line_or_one call.line;
  message =
      if call.in_try
      then none
      else if call.name == codes "c.res.json"
      then none
      else if is_json_method call.name
      then (if not (call.arg_count == 0) then none else some (json_message call))
      else if not (call.name == codes "JSON.parse")
      then none
      else if is_literal call.first_arg_kind
      then none
      else if call.stringify_roundtrip
      then none
      else if schema_wrap call.wrapped_by
      then none
      else if not (looks_external lower call)
      then none
      else some (
          codes
            "JSON.parse of external input is unguarded; wrap in try or pass immediately to a schema parser");
}

abbrev pub default_rule : Text
default_rule = codes "typescript.correctness.no-or-default-for-nonzero-number"

abbrev pub json_rule : Text
json_rule = codes "typescript.reliability.no-unguarded-json-parse-on-external-input"

module _ (load_facts : Text → Text → Option Facts) where
  unfoldable pub detect_default : (Text → Option Bool) → Text → Text → List Finding
  unfolding default_item
  detect_default nonzero source filename =
      detect_in (is_out_of_scope filename false) (load_facts source filename)
        (λ facts. report_once default_rule [] (map (default_item nonzero) facts.binaries))

  unfoldable pub detect_json : (Text → Text) → Text → Text → List Finding
  unfolding json_item
  detect_json lower source filename =
      detect_in (is_out_of_scope filename false) (load_facts source filename)
        (λ facts. report_each json_rule (map (json_item lower) facts.calls))
