-- ===== src/Pyast/Scopes/Owners.antt =====
-- checkers/pyast_client.py: which function a collected call and a collected handler belong to.
use deslop.Prelude.{
  count_if, count_if-append, ℕ, ◌+◌, ◌≡◌, refl, Bool, List, [], ◌∷◌, ◌++◌, All, All-append,
  All-implies, Option, none, some, Dict, Text, arith, inl, inr, ◌⊎◌,
}
use deslop.Pyast.Facts.{Call, ExceptHandler, Function}
use deslop.Pyast.Tree.{Node, Handlers, done, bare, handler}
use deslop.Pyast.Visitor.{json_record, handler_records}
use deslop.Pyast.Scopes.{
  Scoped, nothing, both, called, imported, noted, in_region, in_class, in_function, read,
  attribute_read,
}

-- Over the calls of all functions.
unfoldable pub count_in : (Call → Bool) → List Function → ℕ
count_in p [] = 0
count_in p (fn ∷ fns) = count_if p fn.calls + count_in p fns

-- A function with that name is in the list.
abbrev pub IsNamed : Option Text → List Function → Type 0
IsNamed o [] = ⊥
IsNamed o (fn ∷ fns) = (o ≡ some fn.name) ⊎ IsNamed o fns

abbrev pub IsOwned : Option Text → List Function → ExceptHandler → Type 0
IsOwned fn functions h = (h.in_function ≡ fn) ⊎ IsNamed h.in_function functions

count_in-append :
    (p : Call → Bool) (a b : List Function) → count_in p (a ++ b) ≡ count_in p a + count_in p b
unfolding count_in
count_in-append p [] b = omega arith
count_in-append p (fn ∷ a) b = omega (arith, count_in-append p a b)

IsNamed-left : (o : Option Text) (a b : List Function) → IsNamed o a → IsNamed o (a ++ b)
IsNamed-left o [] b h = absurd h
IsNamed-left o (fn ∷ a) b (inl e) = inl e
IsNamed-left o (fn ∷ a) b (inr h) = inr (IsNamed-left o a b h)

IsNamed-right : (o : Option Text) (a b : List Function) → IsNamed o b → IsNamed o (a ++ b)
IsNamed-right o [] b h = h
IsNamed-right o (fn ∷ a) b h = inr (IsNamed-right o a b h)

IsOwned-left :
    (fn : Option Text) (a b : List Function) (h : ExceptHandler)
    → IsOwned fn a h
    → IsOwned fn (a ++ b) h
IsOwned-left fn a b h (inl e) = inl e
IsOwned-left fn a b h (inr named) = inr (IsNamed-left h.in_function a b named)

IsOwned-right :
    (fn : Option Text) (a b : List Function) (h : ExceptHandler)
    → IsOwned fn b h
    → IsOwned fn (a ++ b) h
IsOwned-right fn a b h (inl e) = inl e
IsOwned-right fn a b h (inr named) = inr (IsNamed-right h.in_function a b named)

IsOwned-head :
    (fn : Option Text) (f : Function) (a : List Function) (h : ExceptHandler)
    → IsOwned (some f.name) a h
    → IsOwned fn (f ∷ a) h
IsOwned-head fn f a h (inl e) = inr (inl e)
IsOwned-head fn f a h (inr named) = inr (inr named)

-- Every call found is one of the function around it or of one function that starts in the part, and
-- every handler found names one of these.
pub record Belongs (part : Scoped) : Type 0 where
  pub split :
      (p : Call → Bool) (fn : Option Text) (in_try : Bool) (aliases : Dict Text Text)
      → count_if p (part fn in_try aliases).calls
        ≡ count_if p (part fn in_try aliases).own + count_in p (part fn in_try aliases).functions
  pub owned :
      (fn : Option Text) (in_try : Bool) (aliases : Dict Text Text)
      → All (IsOwned fn (part fn in_try aliases).functions) (part fn in_try aliases).handlers

pub both-Belongs : {a b : Scoped} → Belongs a → Belongs b → Belongs (both a b)
unfolding count_in
both-Belongs {a} {b} h k = record {
  split = λ p fn in_try aliases.
      let r = a fn in_try aliases in
      let q = b fn in_try r.aliases in
      omega (
        arith,
        h.split p fn in_try aliases,
        k.split p fn in_try r.aliases,
        count_if-append p r.calls q.calls,
        count_if-append p r.own q.own,
        count_in-append p r.functions q.functions,
      );
  owned = λ fn in_try aliases.
      let r = a fn in_try aliases in
      let q = b fn in_try r.aliases in
      All-append _ r.handlers q.handlers
        (All-implies r.handlers (IsOwned-left fn r.functions q.functions)
          (h.owned fn in_try aliases))
        (All-implies q.handlers (IsOwned-right fn r.functions q.functions)
          (k.owned fn in_try r.aliases));
}

pub function-Belongs :
    {part : Scoped} (head : Function) → Belongs part → Belongs (in_function head part)
unfolding count_if count_in
function-Belongs {part} head h = record {
  split = λ p fn in_try aliases. omega (arith, h.split p (some head.name) in_try aliases);
  owned = λ fn in_try aliases.
      let r = part (some head.name) in_try aliases in
      All-implies r.handlers (IsOwned-head fn (record head { calls = r.own }) r.functions)
        (h.owned (some head.name) in_try aliases);
}

pub nothing-Belongs : Belongs nothing
unfolding count_if count_in
nothing-Belongs = record { split = λ p fn in_try aliases. refl; owned = λ fn in_try aliases. tt }

pub called-Belongs : (rec : Dict Text Text → Call) → Belongs (called rec)
unfolding count_in
called-Belongs rec = record {
  split = λ p fn in_try aliases. omega arith;
  owned = λ fn in_try aliases. tt;
}

pub imported-Belongs : (f : Dict Text Text → Dict Text Text) → Belongs (imported f)
unfolding count_if count_in
imported-Belongs f = record { split = λ p fn in_try aliases. refl; owned = λ fn in_try aliases. tt }

handler_records-Owned :
    (unparse : Node → Text) (fn : Option Text) (handlers : Handlers)
    → All (IsOwned fn []) (handler_records unparse fn handlers)
unfolding handler_records
handler_records-Owned unparse fn done = tt
handler_records-Owned unparse fn (bare line body more) =
    (inl refl, handler_records-Owned unparse fn more)
handler_records-Owned unparse fn (handler line type body more) =
    (inl refl, handler_records-Owned unparse fn more)

pub noted-Belongs :
    (unparse : Node → Text) (handlers : Handlers)
    → Belongs (noted (λ fn. handler_records unparse fn handlers))
unfolding count_if count_in
noted-Belongs unparse handlers = record {
  split = λ p fn in_try aliases. refl;
  owned = λ fn in_try aliases. handler_records-Owned unparse fn handlers;
}

pub region-Belongs :
    {part : Scoped} (in_body : Bool) → Belongs part → Belongs (in_region in_body part)
region-Belongs in_body h = record {
  split = λ p fn in_try aliases. h.split p fn in_body aliases;
  owned = λ fn in_try aliases. h.owned fn in_body aliases;
}

pub class-Belongs : {part : Scoped} → Belongs part → Belongs (in_class part)
class-Belongs h = record { split = h.split; owned = h.owned }

pub read-Belongs : (o : Option Text) (line : ℕ) → Belongs (read o line)
read-Belongs none line = nothing-Belongs
read-Belongs (some full) line = called-Belongs (λ aliases. json_record full line)

pub attribute_read-Belongs :
    (unparse : Node → Text) (is_func : Bool) (line : ℕ) (value : Node) (attr : Text) (load : Bool)
    → Belongs (attribute_read unparse is_func line value attr load)
attribute_read-Belongs unparse is_func line value attr load = record {
  split = λ p fn in_try aliases. (read-Belongs _ line).split p fn in_try aliases;
  owned = λ fn in_try aliases. (read-Belongs _ line).owned fn in_try aliases;
}
