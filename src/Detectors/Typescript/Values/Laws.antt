-- ===== src/Detectors/Typescript/Values/Laws.antt =====
-- Which lines the detectors of defaults and of parsed JSON report.
use deslop.Prelude.{
  Bool, false, ◌&&◌, ◌||◌, not, map, List, [], ◌∷◌, none, some, mem, ends_with, contains,
  after_last, split, replace, list_beq, if◌then◌else◌, sym, refl, Text, codes, Option, any, keep,
  ◌==◌, nat_eq, list_eq, ◌≡◌, arith,
}
use deslop.Tsast.{is_out_of_scope}
use deslop.Detectors.{line_or_one}
use deslop.Detectors.Laws.{Exact, in_facts, detect_in-Exact, any-items, lines, is_some}
use deslop.Texts.Join.{join}
use deslop.Detectors.Typescript.Laws.{facts_lines, lines-detect_in, lines-report_each}
use deslop.Detectors.Typescript.Values.{
  Binary, Call, Facts, left_in_scope, nonzero_number, schema_last, default_item, schema_wrap,
  is_literal, looks_external, first_or_empty, external_names, external_needles, is_json_method,
  json_item, default_rule, json_rule, detect_default, detect_json,
}

-- A name, a property, or a conversion to a number.
abbrev may_be_zero : Binary → Bool
may_be_zero b =
    (b.left_kind == codes "property" || b.left_kind == codes "identifier")
    || ((b.left_kind == codes "call")
        && (ends_with b.left_callee (codes ".Number")
            || mem b.left_callee (codes "Number" ∷ codes "parseInt" ∷ codes "parseFloat" ∷ [])))

left_in_scope-may_be_zero : (b : Binary) → left_in_scope b ≡ may_be_zero b
unfolding left_in_scope
left_in_scope-may_be_zero b = ground arith

-- An operand `||` with a number that is not zero, behind one that may be zero.
abbrev pub is_default : (Text → Option Bool) → Binary → Bool
is_default nonzero b =
    (b.op == codes "||")
    && ((b.right_kind == codes "number") && (nonzero_number nonzero b.right_value && may_be_zero b))

-- The method `json` of a request or a response, by the names that are known.
abbrev reads_json : Text → Bool
reads_json name =
    any (ends_with name) (codes ".req.json" ∷ codes ".request.json" ∷ codes ".response.json" ∷ [])
    || mem name
        (codes "req.json" ∷ codes "request.json" ∷ codes "res.json" ∷ codes "response.json" ∷ [])

is_json_method-reads_json : (name : Text) → is_json_method name ≡ reads_json name
unfolding is_json_method mem
is_json_method-reads_json name = ground arith

-- The methods by which schemas parse.
abbrev schema_methods : List Text
schema_methods =
    codes "parse"
    ∷ codes "parseAsync"
    ∷ codes "parseJson"
    ∷ codes "parseUnknown"
    ∷ codes "safeParse"
    ∷ codes "safeParseAsync"
    ∷ codes "decode"
    ∷ codes "decodeUnknown"
    ∷ codes "fromJson"
    ∷ []

mem-schema_last : (m : Text) → mem m schema_last ≡ mem m schema_methods
unfolding mem
mem-schema_last m = ground arith

-- The last name of what the value is passed to is one of these.
abbrev passes_schema : Text → Bool
passes_schema wrapped_by = mem (after_last b'.' wrapped_by) schema_methods

nothing_passes : false ≡ passes_schema []
unfolding mem list_beq after_last split
nothing_passes = refl

schema_wrap-passes_schema : (w : Text) → schema_wrap w ≡ passes_schema w
unfolding schema_wrap
schema_wrap-passes_schema [] = nothing_passes
schema_wrap-passes_schema (c ∷ w) = mem-schema_last (after_last b'.' (c ∷ w))

-- The call stands in a handler, or the name or the text of its argument is one of external input.
abbrev is_external : (Text → Text) → Call → Bool
is_external lower c =
    c.in_handler
    || (mem (lower (after_last b'.' (replace b'\\' b'/' c.first_arg_name))) external_names
        || any
            (λ needle.
              contains
                (lower (
                  join (codes " ") (
                    first_or_empty c.arg_origins
                    ∷ replace b'\\' b'/' c.first_arg_name
                    ∷ join (codes " ") c.args_summary
                    ∷ [])))
                needle)
            external_needles)

looks_external-is_external :
    (lower : Text → Text) (c : Call) → looks_external lower c ≡ is_external lower c
unfolding looks_external
looks_external-is_external lower c = ground arith

-- A request's JSON that is read without arguments, or external input that is parsed and neither a
-- literal, nor written by the program, nor passed to a schema.
abbrev pub is_unguarded : (Text → Text) → Call → Bool
is_unguarded lower c =
    (not c.in_try && not (c.name == codes "c.res.json"))
    && ((reads_json c.name && (c.arg_count == 0))
        || ((not (reads_json c.name) && (c.name == codes "JSON.parse"))
            && (not (
                  is_literal c.first_arg_kind
                  || (c.stringify_roundtrip || passes_schema c.wrapped_by))
                && is_external lower c)))

default_item-is_default :
    (nonzero : Text → Option Bool) (b : Binary)
    → is_some (default_item nonzero b).message ≡ is_default nonzero b
unfolding default_item
default_item-is_default nonzero b = ground (arith, left_in_scope-may_be_zero b)

json_cases :
    (tried hono reads bare parses literal round wrapped external : Bool) (a b : Text)
    → is_some (
        if tried
        then none
        else if hono
        then none
        else if reads
        then (if not bare then none else some a)
        else if not parses
        then none
        else if literal
        then none
        else if round
        then none
        else if wrapped
        then none
        else if not external
        then none
        else some b)
      ≡ ((not tried && not hono)
          && ((reads && bare)
              || ((not reads && parses) && (not (literal || (round || wrapped)) && external))))
json_cases tried hono reads bare parses literal round wrapped external a b = ground arith

json_item-is_unguarded :
    (lower : Text → Text) (c : Call) → is_some (json_item lower c).message ≡ is_unguarded lower c
unfolding json_item
json_item-is_unguarded lower c =
    rw
      (
        sym (is_json_method-reads_json c.name),
        sym (schema_wrap-passes_schema c.wrapped_by),
        sym (looks_external-is_external lower c),
      )
      (json_cases c.in_try (c.name == codes "c.res.json") (is_json_method c.name) (c.arg_count == 0)
        (c.name == codes "JSON.parse") (is_literal c.first_arg_kind) c.stringify_roundtrip
        (schema_wrap c.wrapped_by) (looks_external lower c) _ _)

-- In TypeScript files in scope with facts, one detector has one finding for each line with a default
-- by `||` of a number that is not zero, behind a name, a property or a conversion to a number, and no
-- other finding; and the other one reports, in order and each time, outside of `try` the calls without
-- arguments of a method `json` whose name is that of req, request, res or response or ends with that
-- of one of these but res, `c.res.json` excepted, and the external input that `JSON.parse` reads,
-- unless it is a literal, was written by the program, or is passed to a schema.
pub values-Exact :
    (load_facts : Text → Text → Option Facts) (nonzero : Text → Option Bool) (lower : Text → Text)
    (source filename : Text)
    → Exact default_rule
        (λ n.
          in_facts
            (is_out_of_scope filename false)
            (load_facts source filename)
            (λ facts. any (λ b. (line_or_one b.line == n) && is_default nonzero b) facts.binaries))
        (detect_default load_facts nonzero source filename)
      × (lines (detect_json load_facts lower source filename)
          ≡ facts_lines
              (is_out_of_scope filename false)
              (load_facts source filename)
              (λ facts. map (λ c. line_or_one c.line) (keep (is_unguarded lower) facts.calls)))
unfolding detect_default detect_json
values-Exact load_facts nonzero lower source filename = (
  detect_in-Exact default_rule _ _ _ _ (λ facts n.
      any-items n (default_item nonzero) _ facts.binaries
        (λ b. ground (arith, default_item-is_default nonzero b))),
  lines-detect_in (is_out_of_scope filename false) (load_facts source filename) _ _ (λ facts.
      lines-report_each json_rule (json_item lower) _ facts.calls
        (λ c. json_item-is_unguarded lower c)),
)
