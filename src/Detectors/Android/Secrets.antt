-- ===== src/Detectors/Android/Secrets.antt =====
-- checkers/no_hardcoded_secret_literals.py. The searches of its regular expressions and
-- `str.splitlines` are parameters.
pub mod Laws
use deslop.Prelude.{
  ℕ, zero, suc, ◌-◌, Bool, true, false, ◌&&◌, ◌||◌, not, List, [], ◌∷◌, ◌++◌, map, Text, codes,
  Option, none, some, mem, any, length, ltb, starts_with, get_elem?, get_last_or, if◌then◌else◌,
  ◌==◌, nat_eq, list_eq, list_beq,
}
use deslop.Texts.Strip.{strip, lstrip, is_space}
use deslop.Checkers.Common.{Finding, is_skipped}
use deslop.Ktast.Literals.{StringLit}
use deslop.Ktast.Facts.{Facts}
use deslop.Detectors.{Item, line_or_one, report_once, detect_in}

-- `search` of `_PREFIX`, `_SECRET_IDENT`, `_UI_IDENT` and `_PLACEHOLDER`, `match` of `_EMPTY`, and the
-- identifiers that `_ASSIGN_IDENT` finds, in order.
pub record Searches : Type 0 where
  pub prefix : Text → Bool
  pub secret_ident : Text → Bool
  pub ui_ident : Text → Bool
  pub placeholder_re : Text → Bool
  pub empty : Text → Bool
  pub assign_idents : Text → List Text

abbrev pub or_empty : Option Text → Text
or_empty none = []
or_empty (some t) = t

-- `lines[line - 2] if line >= 2 else ""`, and `lines[line - 1] if 1 <= line <= len(lines) else ""`;
-- a line of the facts is one of the source or the one behind it.
abbrev pub line_at : List Text → ℕ → Text
line_at lines zero = []
line_at lines (suc i) = or_empty (get_elem? lines i)

unfoldable pub window : List Text → ℕ → Text
window lines line = line_at lines (line - 1) ++ (b'\n' ∷ line_at lines line)

abbrev pub is_there : Option Text → Bool
is_there none = false
is_there (some t) = true

abbrev pub ident_name : Option Text → Text
ident_name none = codes "secret"
ident_name (some ident) = ident

abbrev pub secret_rule : Text
secret_rule = codes "android.security.no-hardcoded-secret-literals"

module _ (re : Searches) where
  unfoldable pub placeholder : Text → Bool
  unfolding strip
  placeholder value = if re.empty (strip value) then true else re.placeholder_re value

  unfoldable pub prefix_hit : Text → Bool
  unfolding placeholder lstrip
  prefix_hit value =
      if not (re.prefix value)
      then false
      else if starts_with (lstrip value) (codes "-----BEGIN")
      then not (placeholder value)
      else if ltb (length value) 16
      then false
      else not (placeholder value)

  unfoldable pub secret_name : Text → Bool
  secret_name name = if name == [] || re.ui_ident name then false else re.secret_ident name

  -- The last identifier that is assigned, if it names a secret; it is empty where there is none.
  unfoldable pub assigned_ident : Text → Option Text
  unfolding secret_name
  assigned_ident window =
      let ident = get_last_or [] (re.assign_idents window) in
      if not (ident == []) && secret_name ident then some ident else none

  unfoldable pub ident_hit : Text → Text → Bool
  unfolding placeholder assigned_ident
  ident_hit value window =
      if ltb (length value) 16
      then false
      else if placeholder value
      then false
      else if any is_space value
      then false
      else is_there (assigned_ident window)

  unfoldable pub secret_item : List Text → StringLit → Item
  unfolding window prefix_hit ident_hit
  secret_item lines lit =
      let line = line_or_one (some lit.line) in
      record {
        line = line;
        message =
            if not (prefix_hit lit.value) && not (ident_hit lit.value (window lines line))
            then none
            else if prefix_hit lit.value
            then some (codes "hardcoded secret-shaped literal; load from BuildConfig/secrets")
            else some (
                codes "hardcoded "
                ++ (ident_name (assigned_ident (window lines line))
                    ++ codes " literal; load from BuildConfig/secrets"));
      }

  unfoldable pub detect_secrets :
      (Text → Text → Option Facts) → (Text → List Text) → Text → Text → List Finding
  unfolding secret_item
  detect_secrets load_facts splitlines source filename =
      detect_in (is_skipped filename (codes "android") false) (load_facts source filename) (λ facts.
        report_once secret_rule [] (map (secret_item (splitlines source)) facts.string_lits))
