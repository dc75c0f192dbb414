-- ===== src/Detectors/Typescript.antt =====
-- The TypeScript facts that the detectors read, which the script facts.mjs prints, and
-- checkers/no_eager_heavy_dependency_import.py, no_orphaned_effect_timeouts.py,
-- no_mixed_controlled_uncontrolled.py, no_fetch_without_abort_timeout.py and
-- no_empty_catch_in_route_handler.py. The last two report an item each time.
pub mod Laws
pub mod Values
use deslop.Prelude.{
  ℕ, Bool, true, false, ◌&&◌, ◌||◌, not, List, [], ◌∷◌, ◌++◌, map, Text, codes, Option, none, some,
  mem, any, keep, starts_with, if◌then◌else◌, ◌==◌, nat_eq, list_eq, list_beq,
}
use deslop.Checkers.Common.{Finding}
use deslop.Tsast.{is_out_of_scope}
use deslop.Detectors.{Item, line_or_one, report_once, detect_in}

pub record Import : Type 0 where
  pub kind : Text
  pub is_type_only : Bool
  pub source : Text
  pub line : Option ℕ

pub record Effect : Type 0 where
  pub kind : Text
  pub has_timeout : Bool
  pub has_interval : Bool
  pub has_cleanup_timer : Bool
  pub has_cleanup_abort : Bool
  pub line : Option ℕ

-- An element of JSX with the names of its attributes.
pub record Element : Type 0 where
  pub tag : Text
  pub attrs : List Text
  pub line : Option ℕ

pub record Call : Type 0 where
  pub name : Text
  pub callee_is_local : Bool
  pub has_signal_option : Bool
  pub resolved_signal : Bool
  pub options_unknown : Bool
  pub line : Option ℕ

-- `try_has_call` may be missing.
pub record CatchClause : Type 0 where
  pub body_empty : Bool
  pub in_handler : Bool
  pub try_has_call : Option Bool
  pub line : Option ℕ

pub record Facts : Type 0 where
  pub imports : List Import
  pub effects : List Effect
  pub jsx : List Element
  pub calls : List Call
  pub catch_clauses : List CatchClause

abbrev or_text : Text → Text → Text
or_text [] d = d
or_text (c ∷ s) d = c ∷ s

abbrev pub heavy_exact : List Text
heavy_exact =
    codes "jsqr"
    ∷ codes "pdf-lib"
    ∷ codes "chart.js"
    ∷ codes "xlsx"
    ∷ codes "jspdf"
    ∷ codes "html2canvas"
    ∷ codes "mammoth"
    ∷ codes "fabric"
    ∷ codes "konva"
    ∷ codes "three"
    ∷ codes "lodash"
    ∷ codes "moment"
    ∷ codes "date-fns"
    ∷ codes "recharts"
    ∷ codes "echarts"
    ∷ codes "plotly.js"
    ∷ codes "d3"
    ∷ codes "zxcvbn"
    ∷ codes "bcryptjs"
    ∷ codes "argon2"
    ∷ codes "crypto-js"
    ∷ codes "tensorflow"
    ∷ codes "opencv"
    ∷ codes "tesseract.js"
    ∷ codes "sharp"
    ∷ codes "ffmpeg"
    ∷ codes "wavesurfer.js"
    ∷ codes "howler"
    ∷ codes "tone"
    ∷ []

abbrev pub heavy_prefix : List Text
heavy_prefix =
    codes "@react-pdf/"
    ∷ codes "@date-io/"
    ∷ codes "@d3/"
    ∷ codes "@tensorflow/"
    ∷ codes "@ffmpeg/"
    ∷ codes "lodash/"
    ∷ codes "date-fns/"
    ∷ codes "moment/"
    ∷ []

unfoldable pub is_heavy : Text → Bool
is_heavy source = if mem source heavy_exact then true else any (starts_with source) heavy_prefix

unfoldable pub import_item : Import → Item
import_item node = record {
  line = line_or_one node.line;
  message =
      if not (node.kind == codes "static")
      then none
      else if node.is_type_only
      then none
      else if not (is_heavy node.source)
      then none
      else some (
          codes "static import of heavy dependency '"
          ++ (node.source
              ++ codes "'; use import() / next/dynamic so the module is not in the critical path"));
}

unfoldable pub effect_item : Effect → Item
effect_item effect = record {
  line = line_or_one effect.line;
  message =
      if not (effect.has_timeout || effect.has_interval)
      then none
      else if effect.has_cleanup_timer || effect.has_cleanup_abort
      then none
      else some (
          or_text effect.kind (codes "useEffect")
          ++ (codes " calls "
              ++ ((if effect.has_interval then codes "setInterval" else codes "setTimeout")
                  ++ codes
                      " without returning a cleanup that calls clearTimeout/clearInterval (or AbortController.abort)")));
}

abbrev pub pairs : List (Text × Text)
pairs = (codes "value", codes "defaultValue") ∷ (codes "checked", codes "defaultChecked") ∷ []

-- The loop over `_PAIRS`, up to its `break`.
unfoldable pub mixed : List Text → List (Text × Text) → Option (Text × Text)
mixed names [] = none
mixed names ((a, b) ∷ ps) =
    let rest = mixed names ps in if mem a names && mem b names then some (a, b) else rest

abbrev pub mixed_message : Text → Option (Text × Text) → Option Text
mixed_message tag none = none
mixed_message tag (some (a, b)) = some (
    codes "<"
    ++ (or_text tag (codes "element")
        ++ (codes "> sets both `"
            ++ (a
                ++ (codes "` and `"
                    ++ (b ++ codes "`; pick controlled or uncontrolled, not both"))))))

unfoldable pub element_item : Element → Item
element_item el = record {
  line = line_or_one el.line;
  message = mixed_message el.tag (mixed el.attrs pairs);
}

abbrev pub fetch_names : List Text
fetch_names =
    codes "fetch"
    ∷ codes "window.fetch"
    ∷ codes "globalThis.fetch"
    ∷ codes "global.fetch"
    ∷ codes "self.fetch"
    ∷ []

unfoldable pub fetch_item : Call → Item
fetch_item call = record {
  line = line_or_one call.line;
  message =
      if not (mem call.name fetch_names)
      then none
      else if call.callee_is_local
      then none
      else if call.has_signal_option || call.resolved_signal
      then none
      else if call.options_unknown
      then none
      else some (
          codes
            "fetch() is missing an AbortSignal (pass signal via AbortSignal.timeout, AbortController.signal, or { signal })");
}

-- `value is False`
abbrev pub is_false : Option Bool → Bool
is_false none = false
is_false (some b) = not b

unfoldable pub catch_item : CatchClause → Item
catch_item clause = record {
  line = line_or_one clause.line;
  message =
      if not clause.body_empty
      then none
      else if not clause.in_handler
      then none
      else if is_false clause.try_has_call
      then none
      else some (
          codes
            "empty catch in a route/middleware handler swallows failures; log, rethrow, or send an error response");
}

-- The loop without `seen`.
unfoldable pub report_each : Text → List Item → List Finding
report_each rule_id [] = []
report_each rule_id (item ∷ items) = elim item.message [
  | none ↦ report_each rule_id items
  | some message ↦
      record { line = item.line; message = message; rule_id = rule_id } ∷ report_each rule_id items
]

abbrev pub import_rule : Text
import_rule = codes "typescript.performance.no-eager-heavy-dependency-import"

abbrev pub effect_rule : Text
effect_rule = codes "typescript.ui.no-orphaned-effect-timeouts"

abbrev pub element_rule : Text
element_rule = codes "typescript.react.no-mixed-controlled-uncontrolled"

abbrev pub fetch_rule : Text
fetch_rule = codes "typescript.http.no-fetch-without-abort-timeout"

abbrev pub catch_rule : Text
catch_rule = codes "typescript.express.no-empty-catch-in-route-handler"

module _ (load_facts : Text → Text → Option Facts) where
  abbrev detect_with : (Facts → List Finding) → Text → Text → List Finding
  detect_with found source filename =
      detect_in (is_out_of_scope filename false) (load_facts source filename) found

  unfoldable pub detect_import : Text → Text → List Finding
  detect_import = detect_with (λ facts. report_once import_rule [] (map import_item facts.imports))

  unfoldable pub detect_effect : Text → Text → List Finding
  detect_effect = detect_with (λ facts. report_once effect_rule [] (map effect_item facts.effects))

  unfoldable pub detect_element : Text → Text → List Finding
  detect_element = detect_with (λ facts. report_once element_rule [] (map element_item facts.jsx))

  unfoldable pub detect_fetch : Text → Text → List Finding
  detect_fetch = detect_with (λ facts. report_each fetch_rule (map fetch_item facts.calls))

  unfoldable pub detect_catch : Text → Text → List Finding
  detect_catch = detect_with (λ facts. report_each catch_rule (map catch_item facts.catch_clauses))
