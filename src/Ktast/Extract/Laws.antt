-- ===== src/Ktast/Extract/Laws.antt =====
-- What holds of the facts that checkers/ktast_client.py extracts.
use deslop.Prelude.{
  ◌+◌, ◌≤◌, ◌≡◌, refl, sym, ◌∙◌, List, [], ◌∷◌, ◌++◌, Text, All, All-append, All-implies, keep,
  some, arith, Bool-cases, inl, inr, Bool, true, count_if, mem, list_eq, nat_eq, count_if-append,
  keep-append,
}
use deslop.Ktast.Facts.{Class, Call, Function, Facts}
use deslop.Ktast.Blank.{blank_strings_and_comments}
use deslop.Ktast.Extract.{
  CallMatch, Patterns, Calls, name_at, record_call, call_record, add_call, add_calls,
  extract_classes, extract_functions, extract_calls, facts_of, has_facts, load_facts, before_first,
  call_skip,
}
use deslop.Ktast.Extract.Spans.{IsForward, IsFresh, extract_classes-Spans, extract_functions-Fresh}
use deslop.Ktast.Extract.Owners.{
  is_outside, count_in, IsPlacedIn, name_at-record_call, record_call-Placed, record_call-count,
}

-- What holds of the calls found so far.
record AreRecorded (classes : List Class) (s : Calls) : Type 0 where
  placed : All (IsPlacedIn classes) s.functions
  named : All (λ c. c.in_function ≡ name_at c.line s.functions) s.calls
  split :
      (p : Call → Bool)
      → count_if p s.calls ≡ count_if p (keep is_outside s.calls) + count_in p s.functions

call_record-Recorded :
    (classes : List Class) (rec : Call) (s : Calls)
    → rec.in_function ≡ name_at rec.line s.functions
    → AreRecorded classes s
    → AreRecorded classes
        (record { calls = s.calls ++ rec ∷ []; functions = record_call rec s.functions })
call_record-Recorded classes rec s named h = record {
  placed = record_call-Placed classes rec s.functions named h.placed;
  named =
      All-append _ s.calls (rec ∷ [])
        (All-implies s.calls (λ c e. e ∙ sym (name_at-record_call rec c.line s.functions)) h.named)
        (named ∙ sym (name_at-record_call rec rec.line s.functions), tt);
  split = λ p. rw (keep-append is_outside s.calls (rec ∷ [])) (
      omega (
        arith,
        h.split p,
        record_call-count p rec s.functions named,
        count_if-append p s.calls (rec ∷ []),
        count_if-append p (keep is_outside s.calls) (keep is_outside (rec ∷ [])),
      ));
}

add_call-Recorded :
    (classes : List Class) (text : Text) (m : CallMatch) (s : Calls)
    → AreRecorded classes s
    → AreRecorded classes (add_call text m s)
unfolding add_call
add_call-Recorded classes text m s h =
    elim (Bool-cases (mem (before_first b'.' m.name) call_skip)) [
      | inl e ↦ rw e h
      | inr e ↦ rw e (call_record-Recorded classes (call_record text m s.functions) s refl h)
    ]

add_calls-Recorded :
    (classes : List Class) (text : Text) (ms : List CallMatch) (s : Calls)
    → AreRecorded classes s
    → AreRecorded classes (add_calls text ms s)
unfolding add_calls
add_calls-Recorded classes text [] s h = h
add_calls-Recorded classes text (m ∷ ms) s h =
    add_calls-Recorded classes text ms (add_call text m s) (add_call-Recorded classes text m s h)

-- Functions without calls, as the extraction of calls gets them.
fresh-Placed :
    (classes : List Class) (fns : List Function)
    → All (IsFresh classes) fns
    → All (IsPlacedIn classes) fns
fresh-Placed classes fns h = All-implies fns (λ fn f. (f.0, f.1, rw f.2 tt)) h

fresh-count :
    (p : Call → Bool) (classes : List Class) (fns : List Function)
    → All (IsFresh classes) fns
    → count_in p fns ≡ 0
unfolding count_in count_if
fresh-count p classes [] h = refl
fresh-count p classes (fn ∷ fns) h = rw (h.0.2) (omega (arith, fresh-count p classes fns h.1))

module _ (re : Patterns) (lower : Text → Text) where
  extract_calls-Recorded :
      (text : Text) (classes : List Class)
      → All IsForward (re.fun_re text)
      → AreRecorded classes (extract_calls re text (extract_functions re text classes))
  unfolding extract_calls count_if
  extract_calls-Recorded text classes forward =
      let fresh = extract_functions-Fresh re text classes forward in
      let functions = extract_functions re text classes in
      add_calls-Recorded classes text (re.call_re text)
        (record { calls = []; functions = functions })
        (record {
          placed = fresh-Placed classes functions fresh;
          named = tt;
          split = λ p. omega (arith, fresh-count p classes functions fresh);
        })

  -- For a file that is in scope, and where no match of a class or a function ends before it starts,
  -- facts are returned. No class and no function ends above its first line, and the owner of a function
  -- is the last class around its first line. Every call names the first function around its line, a
  -- call recorded for a function stands on its lines and names it, and by any test on calls, as many
  -- are listed as name no function and are recorded for the functions together.
  pub load_facts-Recorded :
      (source filename : Text)
      → has_facts lower filename ≡ true
      → ((text : Text) → All IsForward (re.class_re text) × All IsForward (re.fun_re text))
      → (facts : Facts) × (load_facts re lower source filename ≡ some facts)
        × All (λ cls. cls.line_start ≤ cls.line_end) facts.classes
        × All (IsPlacedIn facts.classes) facts.functions
        × All (λ c. c.in_function ≡ name_at c.line facts.functions) facts.calls
        × ((p : Call → Bool)
            → count_if p facts.calls
              ≡ count_if p (keep is_outside facts.calls) + count_in p facts.functions)
  unfolding load_facts facts_of
  load_facts-Recorded source filename e forward =
      let blanked = blank_strings_and_comments source in
      let found = extract_calls-Recorded blanked (extract_classes re blanked) (forward blanked).1 in
      (
        facts_of re source,
        rw e refl,
        extract_classes-Spans re blanked (forward blanked).0,
        found.placed,
        found.named,
        found.split,
      )
