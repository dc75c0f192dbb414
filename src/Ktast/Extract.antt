-- ===== src/Ktast/Extract.antt =====
-- checkers/ktast_client.py: classes, functions and calls of a blanked source, and `load_facts`. What the
-- regular expressions of the module match is a parameter.
pub mod Spans
pub mod Owners
pub mod Laws
use deslop.Prelude.{
  ℕ, Bool, true, false, ◌&&◌, ◌||◌, not, List, [], ◌∷◌, ◌++◌, Text, codes, length, split, replace,
  after_last, ends_with, mem, if◌then◌else◌, ◌==◌, nat_eq, list_eq, Option, none, some,
}
use mathlib.Core.Option.{map as map_option}
use deslop.Texts.Strip.{strip, strip_chars}
use deslop.Checkers.Common.{is_skipped}
use deslop.Ktast.Blank.{blank_strings_and_comments}
use deslop.Ktast.Literals.{line_of, extract_string_lits}
use deslop.Ktast.Braces.{match_brace, first_brace_after}
use deslop.Ktast.Annotations.{slice, annotations_before}
use deslop.Ktast.Facts.{Class, Call, Function, Facts, spans, class_at}

-- A match of `_CLASS_RE` or `_FUN_RE`: where it starts and ends, and the group of the name.
pub record Match : Type 0 where
  pub start : ℕ
  pub end : ℕ
  pub name : Text

pub record CallMatch : Type 0 where
  pub start : ℕ
  pub name : Text
  pub opener : Text

-- The matches of the five regular expressions, in order.
pub record Patterns : Type 0 where
  pub class_re : Text → List Match
  pub fun_re : Text → List Match
  pub call_re : Text → List CallMatch
  pub ann_re : Text → List Text
  pub super_re : Text → Option Text

-- `s.split(sep, 1)[0]`, which is `s.split(sep)[0]`
unfoldable pub before_first : ℕ → Text → Text
before_first sep [] = []
before_first sep (c ∷ s) = let rest = before_first sep s in if c == sep then [] else c ∷ rest

abbrev pub onto_kept {ℓ} : {A : Type ℓ} → Option A → List A → List A
onto_kept none kept = kept
onto_kept (some a) kept = a ∷ kept

-- A loop that appends an item for an element or passes it over.
abbrev pub filter_map {ℓ κ} : {A : Type ℓ} {B : Type κ} → (A → Option B) → List A → List B
filter_map f [] = []
filter_map f (x ∷ xs) = onto_kept (f x) (filter_map f xs)

abbrev pub closed_at : Text → Option ℕ → Option (ℕ × ℕ)
closed_at text none = none
closed_at text (some brace) = map_option (λ end. (brace, end)) (match_brace text brace)

-- The brace behind a match and the one that closes it.
unfoldable pub block_after : Text → Match → Option (ℕ × ℕ)
unfolding first_brace_after match_brace
block_after text m = closed_at text (first_brace_after text m.end (length text))

unfoldable pub super_token : Text → Option Text
unfolding strip before_first
super_token part =
    let token = strip (before_first b'<' (strip (before_first b'(' (strip part)))) in
    if token == [] then none else some token

abbrev pub supers_of : Option Text → List Text
supers_of none = []
supers_of (some group) = filter_map super_token (split b',' group)

-- The last class around a line.
abbrev pub owner_for : ℕ → List Class → Option Text
owner_for line classes = map_option (λ cls. cls.name) (class_at line classes)

-- The first function around a line.
unfoldable pub function_at : ℕ → List Function → Option Function
function_at line [] = none
function_at line (fn ∷ fns) =
    let rest = function_at line fns in
    if spans line fn.line_start fn.line_end then some fn else rest

abbrev pub name_at : ℕ → List Function → Option Text
name_at line functions = map_option (λ fn. fn.name) (function_at line functions)

-- `fn["calls"].append(rec)` for the function found, which changes its record in the list
unfoldable pub record_call : Call → List Function → List Function
record_call rec [] = []
record_call rec (fn ∷ fns) =
    let rest = record_call rec fns in
    if spans rec.line fn.line_start fn.line_end
    then record fn { calls = fn.calls ++ rec ∷ [] } ∷ fns
    else fn ∷ rest

abbrev pub call_skip : List Text
call_skip =
    codes "if"
    ∷ codes "for"
    ∷ codes "while"
    ∷ codes "when"
    ∷ codes "catch"
    ∷ codes "try"
    ∷ codes "return"
    ∷ codes "throw"
    ∷ codes "else"
    ∷ codes "do"
    ∷ codes "super"
    ∷ codes "this"
    ∷ codes "init"
    ∷ []

-- The calls found so far, and the functions with theirs.
pub record Calls : Type 0 where
  pub calls : List Call
  pub functions : List Function

abbrev pub call_record : Text → CallMatch → List Function → Call
call_record text m functions =
    let line = line_of text m.start in
    record {
      name = m.name;
      line = line;
      trailing_lambda = m.opener == codes "{";
      in_function = name_at line functions;
    }

unfoldable pub add_call : Text → CallMatch → Calls → Calls
unfolding before_first line_of function_at record_call
add_call text m s =
    let rec = call_record text m s.functions in
    if mem (before_first b'.' m.name) call_skip
    then s
    else record { calls = s.calls ++ rec ∷ []; functions = record_call rec s.functions }

unfoldable pub add_calls : Text → List CallMatch → Calls → Calls
add_calls text [] s = s
add_calls text (m ∷ ms) s = add_calls text ms (add_call text m s)

module _ (re : Patterns) where
  abbrev pub class_of : Text → Match → ℕ × ℕ → Class
  class_of text m (brace, end) = record {
    name = strip_chars (codes "`") m.name;
    line_start = line_of text m.start;
    line_end = line_of text end;
    supers = supers_of (re.super_re (slice m.end brace text));
    annotations = annotations_before re.ann_re text m.start;
  }

  unfoldable pub extract_classes : Text → List Class
  unfolding block_after line_of annotations_before super_token strip_chars
  extract_classes text =
      filter_map (λ m. map_option (class_of text m) (block_after text m)) (re.class_re text)

  abbrev pub function_of : Text → List Class → Match → ℕ × ℕ → Function
  function_of text classes m (brace, end) =
      let annotations = annotations_before re.ann_re text m.start in
      record {
        name = strip_chars (codes "`") m.name;
        line_start = line_of text m.start;
        line_end = line_of text end;
        annotations = annotations;
        owner = owner_for (line_of text m.start) classes;
        is_composable = mem (codes "Composable") annotations;
        is_preview =
            mem (codes "Preview") annotations || mem (codes "PreviewParameter") annotations;
        calls = [];
      }

  unfoldable pub extract_functions : Text → List Class → List Function
  unfolding block_after line_of annotations_before strip_chars
  extract_functions text classes =
      filter_map (λ m. map_option (function_of text classes m) (block_after text m))
        (re.fun_re text)

  unfoldable pub extract_calls : Text → List Function → Calls
  unfolding add_calls
  extract_calls text functions =
      add_calls text (re.call_re text) (record { calls = []; functions = functions })

  -- The facts, without the file's name.
  unfoldable pub facts_of : Text → Facts
  unfolding extract_classes extract_functions extract_calls
  facts_of source =
      let blanked = blank_strings_and_comments source in
      let classes = extract_classes blanked in
      let found = extract_calls blanked (extract_functions blanked classes) in
      record {
        classes = classes;
        functions = found.functions;
        calls = found.calls;
        string_lits = extract_string_lits source;
      }

-- `lower` is `str.lower`.
module _ (lower : Text → Text) where
  unfoldable pub has_facts : Text → Bool
  unfolding is_skipped
  has_facts filename =
      if filename == codes "<inline>" || filename == codes "-"
      then true
      else if is_skipped filename (codes "android") false
      then false
      else let name = lower (after_last b'/' (replace b'\\' b'/' filename)) in
        not (ends_with name (codes ".java") || ends_with name (codes ".gradle.kts"))
        && (ends_with name (codes ".kt")
            || (ends_with name (codes ".kts") || filename == codes "<inline>"))

unfoldable pub load_facts : Patterns → (Text → Text) → Text → Text → Option Facts
unfolding has_facts facts_of
load_facts re lower source filename =
    if has_facts lower filename then some (facts_of re source) else none
