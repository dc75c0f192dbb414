-- ===== src/Detectors/Python/Blocking/Laws.antt =====
-- Which lines the detector of blocking calls reports.
use deslop.Prelude.{
  ℕ, Bool, true, false, ◌&&◌, ◌||◌, List, [], ◌∷◌, map, Text, Option, none, some, mem, any,
  any-append, ◌==◌, nat_eq, list_eq, pair_eq, ◌≡◌, refl, arith, ◌∙◌, if◌then◌else◌, Bool-cases,
  Option-cases, inl, inr, All,
}
use deslop.Checkers.Common.{is_skipped}
use deslop.Pyast.Facts.{Call, Function, Facts}
use deslop.Detectors.{detect_in}
use deslop.Detectors.Laws.{lines, is_some, in_facts}
use deslop.Detectors.Python.{python, is_route}
use deslop.Detectors.Python.Blocking.Names.{blocks, blocking_message-blocks}
use deslop.Detectors.Python.Blocking.{
  Named, has_execute, line_in, named_item, report_named, named_items, blocking_rule,
  detect_blocking,
}

abbrev hits : ℕ → Named → Bool
hits n item = (item.line == n) && is_some item.message

abbrev seen_lines : List (ℕ × Text) → List ℕ
seen_lines = map (λ key. key.0)

mem-seen_lines :
    (line : ℕ) (name : Text) (seen : List (ℕ × Text))
    → mem (line, name) seen ≡ true
    → mem line (seen_lines seen) ≡ true
unfolding mem
mem-seen_lines line name [] h = h
mem-seen_lines line name ((l, m) ∷ seen) h = ground (arith, h, mem-seen_lines line name seen)

seen_already :
    (line n : ℕ) (ls : List ℕ) (rest : Bool)
    → mem line ls ≡ true
    → (rest || mem n ls) ≡ ((((line == n) && true) || rest) || mem n ls)
seen_already line n ls rest h = ground (arith, h)

mem-report_named :
    (rule_id : Text) (items : List Named) (seen : List (ℕ × Text)) (n : ℕ)
    → (mem n (lines (report_named rule_id seen items)) || mem n (seen_lines seen))
      ≡ (any (hits n) items || mem n (seen_lines seen))
unfolding report_named mem
mem-report_named rule_id [] seen n = refl
mem-report_named rule_id (item ∷ items) seen n = elim (Option-cases item.message) [
  | inl quiet ↦ rw (quiet, report_named) (mem-report_named rule_id items seen n ∙ ground arith)
  | inr (m, told) ↦
      rw (told, report_named)
        (elim (Bool-cases (mem (item.line, item.name) seen)) [
          | inl old ↦ rw old (
              mem-report_named rule_id items seen n
              ∙ seen_already item.line n (seen_lines seen) _
                  (mem-seen_lines item.line item.name seen old))
          | inr new ↦
              rw new
                (ground (arith, mem-report_named rule_id items ((item.line, item.name) ∷ seen) n))
        ])
]

ruled-report_named :
    (rule_id : Text) (items : List Named) (seen : List (ℕ × Text))
    → All (λ f. f.rule_id ≡ rule_id) (report_named rule_id seen items)
unfolding report_named
ruled-report_named rule_id [] seen = tt
ruled-report_named rule_id (item ∷ items) seen = elim (Option-cases item.message) [
  | inl quiet ↦ rw (quiet, report_named) (ruled-report_named rule_id items seen)
  | inr (m, told) ↦
      rw (told, report_named)
        (elim (Bool-cases (mem (item.line, item.name) seen)) [
          | inl old ↦ rw old (ruled-report_named rule_id items seen)
          | inr new ↦
              rw new (refl, ruled-report_named rule_id items ((item.line, item.name) ∷ seen))
        ])
]

-- A call of the function blocks on line `n`.
abbrev blocks_on : ℕ → Function → Call → Bool
blocks_on n fn c = (line_in fn c.line == n) && blocks c.name (has_execute fn.calls)

-- The function is an async route, and one of its calls blocks on line `n`.
abbrev route_blocks : ℕ → Function → Bool
route_blocks n fn = (fn.is_async && is_route fn) && any (blocks_on n fn) fn.calls

hits-named :
    (n : ℕ) (fn : Function) (calls : List Call)
    → any (hits n) (map (named_item fn) calls) ≡ any (blocks_on n fn) calls
unfolding named_item
hits-named n fn [] = refl
hits-named n fn (c ∷ calls) =
    rw (blocking_message-blocks c.name fn.calls, hits-named n fn calls) refl

hits-guarded :
    (n : ℕ) (b : Bool) (fn : Function)
    → any (hits n) (if b then map (named_item fn) fn.calls else [])
      ≡ (b && any (blocks_on n fn) fn.calls)
hits-guarded n true fn = hits-named n fn fn.calls
hits-guarded n false fn = refl

hits-named_items :
    (n : ℕ) (fns : List Function) → any (hits n) (named_items fns) ≡ any (route_blocks n) fns
unfolding named_items
hits-named_items n [] = refl
hits-named_items n (fn ∷ fns) =
    any-append (hits n) (if fn.is_async && is_route fn then map (named_item fn) fn.calls else []) _
    ∙ rw (hits-guarded n (fn.is_async && is_route fn) fn, hits-named_items n fns) refl

report_named-lines :
    (items : List Named) (n : ℕ)
    → mem n (lines (report_named blocking_rule [] items)) ≡ any (hits n) items
unfolding mem
report_named-lines items n = ground (arith, mem-report_named blocking_rule items [] n)

mem-nil : (n : ℕ) → mem n [] ≡ false
unfolding mem
mem-nil n = refl

detect_in-lines :
    (skip : Bool) (o : Option Facts) (n : ℕ)
    → mem n (
        lines
          (detect_in skip o (λ facts. report_named blocking_rule [] (named_items facts.functions))))
      ≡ in_facts skip o (λ facts. any (route_blocks n) facts.functions)
detect_in-lines true o n = mem-nil n
detect_in-lines false none n = mem-nil n
detect_in-lines false (some facts) n =
    report_named-lines (named_items facts.functions) n ∙ hits-named_items n facts.functions

detect_in-ruled :
    (skip : Bool) (o : Option Facts)
    → All
        (λ f. f.rule_id ≡ blocking_rule)
        (detect_in skip o (λ facts. report_named blocking_rule [] (named_items facts.functions)))
detect_in-ruled true o = tt
detect_in-ruled false none = tt
detect_in-ruled false (some facts) =
    ruled-report_named blocking_rule (named_items facts.functions) []

-- In a Python file in scope with facts, the detector has a finding for a line exactly when an async
-- function with a route decorator has a call there of one of these names, and not of one below
-- httpx, asyncio, aiofiles or aiohttp: `time.sleep`, one of seven methods of requests, `urlopen` or
-- `urlretrieve` of urllib, anything of http.client, boto3 or psycopg2, `read_sql` in pandas, and
-- sqlite's `connect` where the function executes something. A call without a line has that of its
-- function. All findings carry the rule.
pub detect_blocking-lines :
    (load_facts : Text → Text → Option Facts) (source filename : Text)
    → ((n : ℕ)
        → mem n (lines (detect_blocking load_facts source filename))
          ≡ in_facts
              (is_skipped filename python false)
              (load_facts source filename)
              (λ facts. any (route_blocks n) facts.functions))
      × All (λ f. f.rule_id ≡ blocking_rule) (detect_blocking load_facts source filename)
unfolding detect_blocking
detect_blocking-lines load_facts source filename = (
  detect_in-lines (is_skipped filename python false) (load_facts source filename),
  detect_in-ruled (is_skipped filename python false) (load_facts source filename),
)
