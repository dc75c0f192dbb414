-- ===== src/Detectors/Android/Secrets/Laws.antt =====
-- Which lines the Android detectors report.
use deslop.Prelude.{
  ◌≡◌, false, some, ℕ, Bool, ◌&&◌, ◌||◌, not, List, Text, codes, Option, any, length, ltb,
  starts_with, ◌==◌, nat_eq, arith,
}
use deslop.Texts.Strip.{lstrip, is_space}
use deslop.Checkers.Common.{is_skipped}
use deslop.Ktast.Facts.{Facts}
use deslop.Detectors.Laws.{Exact, in_facts, detect_in-Exact, any-items}
use deslop.Detectors.{line_or_one}
use deslop.Detectors.Android.{detect_scope, detect_runblocking, scope_rule, runblocking_rule}
use deslop.Detectors.Android.Laws.{scope_lines, runblocking_lines, coroutines-Exact}
use deslop.Detectors.Android.Secrets.{
  Searches, window, placeholder, prefix_hit, ident_hit, assigned_ident, is_there, secret_item,
  secret_rule, detect_secrets,
}

module _ (re : Searches) where
  -- The value is no placeholder, and it has a well-known prefix or is assigned to a secret's name, and
  -- then has no blanks; it is long, unless it is a PEM block.
  abbrev pub is_secret : Text → Text → Bool
  is_secret value window =
      not (placeholder re value)
      && ((re.prefix value
            && (starts_with (lstrip value) (codes "-----BEGIN") || not (ltb (length value) 16)))
          || (not (ltb (length value) 16)
              && (not (any is_space value) && is_there (assigned_ident re window))))

  is_secret-hits :
      (value window : Text)
      → (prefix_hit re value || ident_hit re value window) ≡ is_secret value window
  unfolding prefix_hit ident_hit
  is_secret-hits value window = ground arith

module _ (load_facts : Text → Text → Option Facts) (re : Searches)
    (splitlines : Text → List Text) where
  abbrev pub secret_lines : Text → Text → ℕ → Bool
  secret_lines source filename n =
      in_facts (is_skipped filename (codes "android") false) (load_facts source filename) (λ facts.
        any
          (λ lit.
            (line_or_one (some lit.line) == n)
            && is_secret re lit.value (window (splitlines source) (line_or_one (some lit.line))))
          facts.string_lits)

  secrets-Exact :
      (source filename : Text)
      → Exact secret_rule
          (secret_lines source filename)
          (detect_secrets re load_facts splitlines source filename)
  unfolding detect_secrets secret_item
  secrets-Exact source filename = detect_in-Exact secret_rule _ _ _ _ (λ facts n.
      any-items n (secret_item re (splitlines source)) _ facts.string_lits (λ lit. ground (
        arith,
        is_secret-hits re lit.value (window (splitlines source) (line_or_one (some lit.line))),
      )))

  -- In Android files in scope with facts, one detector has one finding for each line with a call of
  -- `GlobalScope.launch` or `GlobalScope.async`, qualified or not, another one for each line of a hot
  -- path with a call of `runBlocking` that is not the head of a function of that name, and a third one
  -- for each line with a string literal that is no placeholder and either has a well-known prefix of a
  -- secret, of 16 characters or more unless it is a PEM block, or is of 16 characters or more and
  -- without blanks while the last identifier that is assigned on its line and the one before is a
  -- secret's name. They have no other finding.
  pub android-Exact :
      (source filename : Text)
      → Exact scope_rule
          (scope_lines load_facts source filename)
          (detect_scope load_facts source filename)
        × Exact runblocking_rule
            (runblocking_lines load_facts source filename)
            (detect_runblocking load_facts source filename)
        × Exact secret_rule
            (secret_lines source filename)
            (detect_secrets re load_facts splitlines source filename)
  android-Exact source filename = (
    (coroutines-Exact load_facts source filename).0,
    (coroutines-Exact load_facts source filename).1,
    secrets-Exact source filename,
  )
