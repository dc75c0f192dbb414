-- ===== src/Pyast/Scopes/Parts.antt =====
-- checkers/pyast_client.py: the walk of a node from the walks of its parts.
use deslop.Prelude.{
  ℕ, ◌≡◌, sym, ap, ◌∙◌, Bool, [], ◌∷◌, ◌++◌, length, length-append, append-nil, append_assoc,
  Option, none, some, Dict, Text, arith,
}
use deslop.Pyast.Facts.{Call, Function}
use deslop.Pyast.Tree.{Node, attribute, Handlers}
use deslop.Pyast.Visitor.{
  State, Region, try_region, except_region, else_region, finally_region, emit_call, enter_region,
  leave_region, enter_function, leave_function, push_scope, pop_scope, note_handlers,
  handler_records, json_read, json_record, emit_read, top_is_try, name_on_top, onto_top, update_at,
  with_calls,
}
use deslop.Pyast.Scopes.{
  Scoped, nothing, both, called, imported, noted, in_region, in_class, in_function, read, Found,
  attribute_read,
}
use deslop.Pyast.Scopes.Places.{
  IsPlaced, with_found, at_place, onto_top-none, IsPlaced-with_found, with_found-twice,
  update_at-end,
}

-- The walk adds to the state what the part holds at the place of the state.
pub record Finds (walk : State → State) (part : Scoped) : Type 0 where
  pub finds : (s : State) → IsPlaced s → walk s ≡ at_place part s

nothing-found : (s : State) → s ≡ at_place nothing s
nothing-found s i = record s {
  functions =
      sym (append-nil (onto_top s.fn_stack [] s.functions) ∙ onto_top-none s.fn_stack s.functions)
        i;
  except_handlers = sym (append-nil s.except_handlers) i;
  calls = sym (append-nil s.calls) i;
}

pub nothing-Finds : Finds (λ s. s) nothing
nothing-Finds = record { finds = λ s placed. nothing-found s }

pub both-Finds :
    {first second : State → State} {a b : Scoped}
    → Finds first a
    → Finds second b
    → Finds (λ s. second (first s)) (both a b)
both-Finds {first} {second} {a} {b} finds_a finds_b = record {
  finds = λ s placed.
      let r = a (name_on_top s.fn_stack) (top_is_try s.region) s.aliases in
      ap second (finds_a.finds s placed)
      ∙ finds_b.finds (at_place a s) (IsPlaced-with_found s r placed)
      ∙ with_found-twice s r (b (name_on_top s.fn_stack) (top_is_try s.region) r.aliases) placed;
}

-- A call of the function on the top and of the module.
emit_call-found : (c : Call) (s : State) → emit_call c s ≡ at_place (called (λ aliases. c)) s
unfolding emit_call
emit_call-found c s i = record s {
  functions =
      sym
        (append-nil
          (onto_top s.fn_stack (record c { in_try = top_is_try s.region } ∷ []) s.functions))
        i;
  except_handlers = sym (append-nil s.except_handlers) i;
  calls = s.calls ++ record c { in_try = top_is_try s.region } ∷ [];
}

pub emit_call-Finds :
    (rec : Dict Text Text → Call) → Finds (λ s. emit_call (rec s.aliases) s) (called rec)
emit_call-Finds rec = record { finds = λ s placed. emit_call-found (rec s.aliases) s }

pub imported-Finds :
    (f : Dict Text Text → Dict Text Text)
    → Finds (λ s. record s { aliases = f s.aliases }) (imported f)
imported-Finds f = record { finds = λ s placed. nothing-found (record s { aliases = f s.aliases }) }

pub region-Finds :
    {walk : State → State} {part : Scoped} (r : Region)
    → Finds walk part
    → Finds (λ s. leave_region (walk (enter_region r s))) (in_region (top_is_try (r ∷ [])) part)
region-Finds try_region h = record {
  finds = λ s placed. ap leave_region (h.finds (enter_region try_region s) placed);
}
region-Finds except_region h = record {
  finds = λ s placed. ap leave_region (h.finds (enter_region except_region s) placed);
}
region-Finds else_region h = record {
  finds = λ s placed. ap leave_region (h.finds (enter_region else_region s) placed);
}
region-Finds finally_region h = record {
  finds = λ s placed. ap leave_region (h.finds (enter_region finally_region s) placed);
}

pub class-Finds :
    {walk : State → State} {part : Scoped}
    → Finds walk part
    → Finds (λ s. pop_scope (walk (push_scope s))) (in_class part)
class-Finds h = record { finds = λ s placed. ap pop_scope (h.finds (push_scope s) placed) }

pub noted-Finds :
    (unparse : Node → Text) (handlers : Handlers)
    → Finds (note_handlers unparse handlers) (noted (λ fn. handler_records unparse fn handlers))
noted-Finds unparse handlers = record {
  finds = λ s placed i. record s {
    functions =
        sym (append-nil (onto_top s.fn_stack [] s.functions) ∙ onto_top-none s.fn_stack s.functions)
          i;
    calls = sym (append-nil s.calls) i;
    except_handlers =
        s.except_handlers ++ handler_records unparse (name_on_top s.fn_stack) handlers;
  };
}

read-found :
    (o : Option Text) (line : ℕ) (s : State) → emit_read o line s ≡ at_place (read o line) s
read-found none line s = nothing-found s
read-found (some full) line s = emit_call-found (json_record full line) s

pub attribute_read-Finds :
    (unparse : Node → Text) (is_func : Bool) (line : ℕ) (value : Node) (attr : Text) (load : Bool)
    → Finds
        (λ s.
          emit_read
            (json_read unparse is_func (attribute line value attr load) attr load s.aliases)
            line
            s)
        (attribute_read unparse is_func line value attr load)
attribute_read-Finds unparse is_func line value attr load = record {
  finds = λ s placed. read-found _ line s;
}

-- The record that stands last gets the calls, and the others keep theirs.
function_calls :
    (s : State) (head : Function) (r : Found)
    → head.calls ≡ []
    → update_at (length s.functions) (with_calls r.own) (s.functions ++ head ∷ []) ++ r.functions
      ≡ onto_top s.fn_stack [] s.functions ++ (record head { calls = r.own } ∷ r.functions)
function_calls s head r e =
    ap (λ fs. fs ++ r.functions) (update_at-end (with_calls r.own) s.functions head)
    ∙ append_assoc s.functions (with_calls r.own head ∷ []) r.functions
    ∙ ap (λ calls. s.functions ++ (record head { calls = calls ++ r.own } ∷ r.functions)) e
    ∙ ap (λ fs. fs ++ (record head { calls = r.own } ∷ r.functions))
        (sym (onto_top-none s.fn_stack s.functions))

enter_function-IsPlaced : (head : Function) (s : State) → IsPlaced (enter_function head s)
enter_function-IsPlaced head s = omega (arith, length-append s.functions (head ∷ []))

left_function :
    (s : State) (head : Function) (r : Found)
    → head.calls ≡ []
    → leave_function (with_found (enter_function head s) r)
      ≡ with_found s (record r {
        own = [];
        functions = record head { calls = r.own } ∷ r.functions;
        aliases = s.aliases;
      })
left_function s head r e i = record s {
  functions = function_calls s head r e i;
  except_handlers = s.except_handlers ++ r.handlers;
  calls = s.calls ++ r.calls;
}

pub function-Finds :
    {walk : State → State} {part : Scoped} (head : Function)
    → head.calls ≡ []
    → Finds walk part
    → Finds (λ s. leave_function (walk (enter_function head s))) (in_function head part)
function-Finds {walk} {part} head e h = record {
  finds = λ s placed.
      ap leave_function (h.finds (enter_function head s) (enter_function-IsPlaced head s))
      ∙ left_function s head (part (some head.name) (top_is_try s.region) s.aliases) e;
}
