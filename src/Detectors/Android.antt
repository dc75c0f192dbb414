-- ===== src/Detectors/Android.antt =====
-- checkers/no_unscoped_boundary_coroutine.py and checkers/no_runblocking_hotpath.py, over the facts of
-- checkers/ktast_client.py.
pub mod Laws
pub mod Sources
pub mod Secrets
use deslop.Prelude.{
  ℕ, Bool, true, false, ◌&&◌, ◌||◌, not, List, [], ◌∷◌, ◌++◌, map, Text, codes, Option, none, some,
  mem, any, keep, ends_with, after_last, if◌then◌else◌, ◌==◌, nat_eq, list_eq, list_beq,
}
use deslop.Checkers.Common.{Finding, is_skipped}
use deslop.Ktast.Facts.{Class, Function, Call, Facts, class_at, spans}
use deslop.Detectors.{Item, report_once, detect_in}

-- The lines of Kotlin facts are counted from 1.
abbrev pub global_scope : List Text
global_scope = codes "GlobalScope.launch" ∷ codes "GlobalScope.async" ∷ []

unfoldable pub is_global_scope : Text → Bool
is_global_scope name =
    if mem name global_scope
    then true
    else ends_with name (codes ".GlobalScope.launch") || ends_with name (codes ".GlobalScope.async")

unfoldable pub scope_item : Call → Item
scope_item call = record {
  line = call.line;
  message =
      if not (is_global_scope call.name)
      then none
      else some (
          codes "GlobalScope."
          ++ ((if ends_with call.name (codes "async") then codes "async" else codes "launch")
              ++ codes
                  " is unscoped; use viewModelScope, lifecycleScope, rememberCoroutineScope, or goAsync"));
}

abbrev pub scope_rule : Text
scope_rule = codes "android.reliability.no-unscoped-boundary-coroutine"

abbrev tail : Text → Text
tail name = after_last b'.' name

unfoldable pub is_runblocking : Text → Bool
is_runblocking name = (name == codes "runBlocking") || ends_with name (codes ".runBlocking")

-- `_fns_at`
unfoldable pub fns_at : ℕ → List Function → List Function
fns_at line functions = keep (λ fn. spans line fn.line_start fn.line_end) functions

abbrev is_cons : Text → Bool
is_cons [] = false
is_cons (_ ∷ _) = true

unfoldable pub names_of : Option Class → List Text
names_of none = []
names_of (some cls) = keep is_cons (tail cls.name ∷ map tail cls.supers)

unfoldable pub is_okhttp_boundary : Option Class → Bool
is_okhttp_boundary cls =
    any (λ n. ends_with n (codes "Interceptor") || ends_with n (codes "Authenticator"))
      (names_of cls)

unfoldable pub is_viewmodel : Option Class → Bool
is_viewmodel cls = any (λ n. ends_with n (codes "ViewModel")) (names_of cls)

abbrev pub english_view : List Text
english_view = codes "Overview" ∷ codes "Preview" ∷ codes "Review" ∷ []

-- One round of the loop of `_is_ui_owner`, where it returns true.
unfoldable pub is_ui_name : Text → Bool
is_ui_name n =
    if ends_with n (codes "ViewModel")
    then false
    else if ends_with n (codes "Activity") || ends_with n (codes "Fragment")
    then true
    else ends_with n (codes "View") && not (any (ends_with n) english_view)

unfoldable pub is_ui_owner : Option Class → Bool
is_ui_owner cls = any is_ui_name (names_of cls)

unfoldable pub is_self_def : Call → List Function → Bool
is_self_def call functions =
    any (λ fn. (fn.name == call.name) && (fn.line_start == call.line)) functions

-- The tests behind `if line in seen`.
unfoldable pub is_hot : ℕ → Facts → Bool
is_hot line facts =
    let cls = class_at line facts.classes in
    let fns = fns_at line facts.functions in
    if is_okhttp_boundary cls
    then false
    else if any (λ fn. fn.is_preview) fns
    then false
    else any (λ fn. fn.is_composable && not fn.is_preview) fns
      || (is_viewmodel cls || is_ui_owner cls)

abbrev shown : Text → Text
shown name = if mem b'.' name then name else codes "runBlocking"

unfoldable pub runblocking_item : Facts → Call → Item
runblocking_item facts call = record {
  line = call.line;
  message =
      if not (is_runblocking call.name)
      then none
      else if is_self_def call facts.functions
      then none
      else if not (is_hot call.line facts)
      then none
      else some (
          shown call.name
          ++ codes
              " on a UI/hot path; use a scoped coroutine (viewModelScope / lifecycleScope / rememberCoroutineScope)");
}

abbrev pub runblocking_rule : Text
runblocking_rule = codes "android.reliability.no-runblocking-hotpath"

module _ (load_facts : Text → Text → Option Facts) where
  unfoldable pub detect_scope : Text → Text → List Finding
  detect_scope source filename =
      detect_in (is_skipped filename (codes "android") false) (load_facts source filename)
        (λ facts. report_once scope_rule [] (map scope_item facts.calls))

  unfoldable pub detect_runblocking : Text → Text → List Finding
  detect_runblocking source filename =
      detect_in (is_skipped filename (codes "android") false) (load_facts source filename)
        (λ facts. report_once runblocking_rule [] (map (runblocking_item facts) facts.calls))
