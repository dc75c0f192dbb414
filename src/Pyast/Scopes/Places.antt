-- ===== src/Pyast/Scopes/Places.antt =====
-- checkers/pyast_client.py: what the visitor's state gains from a part of the tree.
use deslop.Prelude.{
  ℕ, zero, suc, ◌<◌, ◌≡◌, refl, ap, ◌∙◌, List, [], ◌∷◌, ◌++◌, length, length-append, append-nil,
  append_assoc, arith,
}
use deslop.Pyast.Facts.{Call, Function}
use deslop.Pyast.Visitor.{
  State, FunctionRef, update_at, with_calls, onto_top, name_on_top, top_is_try,
}
use deslop.Pyast.Scopes.{Found, Scoped, onto_found}

-- The record of the function on the top of the stack is in the list.
abbrev pub TopIn : List FunctionRef → List Function → Type 0
TopIn [] functions = Unit
TopIn (fn ∷ fns) functions = fn.index < length functions

abbrev pub IsPlaced : State → Type 0
IsPlaced s = TopIn s.fn_stack s.functions

abbrev pub with_found : State → Found → State
with_found s r = record s {
  functions = onto_top s.fn_stack r.own s.functions ++ r.functions;
  except_handlers = s.except_handlers ++ r.handlers;
  calls = s.calls ++ r.calls;
  aliases = r.aliases;
}

abbrev pub at_place : Scoped → State → State
at_place part s = with_found s (part (name_on_top s.fn_stack) (top_is_try s.region) s.aliases)

length-update_at :
    {A : Type 0} (i : ℕ) (f : A → A) (xs : List A) → length (update_at i f xs) ≡ length xs
unfolding update_at
length-update_at i f [] = refl
length-update_at zero f (x ∷ xs) = refl
length-update_at (suc i) f (x ∷ xs) = ap suc (length-update_at i f xs)

update_at-append :
    {A : Type 0} (i : ℕ) (f : A → A) (xs ys : List A)
    → i < length xs
    → update_at i f (xs ++ ys) ≡ update_at i f xs ++ ys
unfolding update_at
update_at-append i f [] ys i_lt = absurd (omega (arith, i_lt))
update_at-append zero f (x ∷ xs) ys i_lt = refl
update_at-append (suc i) f (x ∷ xs) ys i_lt =
    ap (λ ys. x ∷ ys) (update_at-append i f xs ys (omega arith))

pub update_at-end :
    {A : Type 0} (f : A → A) (xs : List A) (y : A)
    → update_at (length xs) f (xs ++ y ∷ []) ≡ xs ++ f y ∷ []
unfolding update_at
update_at-end f [] y = refl
update_at-end f (x ∷ xs) y = ap (λ ys. x ∷ ys) (update_at-end f xs y)

with_calls-twice :
    (fn : Function) (a b : List Call) → with_calls b (with_calls a fn) ≡ with_calls (a ++ b) fn
with_calls-twice fn a b = ap (λ calls. record fn { calls = calls }) (append_assoc fn.calls a b)

update_at-twice :
    (i : ℕ) (a b : List Call) (fns : List Function)
    → update_at i (with_calls b) (update_at i (with_calls a) fns)
      ≡ update_at i (with_calls (a ++ b)) fns
unfolding update_at
update_at-twice i a b [] = refl
update_at-twice zero a b (fn ∷ fns) = ap (λ f. f ∷ fns) (with_calls-twice fn a b)
update_at-twice (suc i) a b (fn ∷ fns) = ap (λ ys. fn ∷ ys) (update_at-twice i a b fns)

update_at-none : (i : ℕ) (fns : List Function) → update_at i (with_calls []) fns ≡ fns
unfolding update_at
update_at-none i [] = refl
update_at-none zero (fn ∷ fns) =
    ap (λ calls. record fn { calls = calls } ∷ fns) (append-nil fn.calls)
update_at-none (suc i) (fn ∷ fns) = ap (λ ys. fn ∷ ys) (update_at-none i fns)

pub onto_top-none :
    (fns : List FunctionRef) (functions : List Function) → onto_top fns [] functions ≡ functions
onto_top-none [] functions = refl
onto_top-none (fn ∷ fns) functions = update_at-none fn.index functions

onto_top-twice :
    (fns : List FunctionRef) (a b : List Call) (functions more : List Function)
    → TopIn fns functions
    → onto_top fns b (onto_top fns a functions ++ more) ≡ onto_top fns (a ++ b) functions ++ more
onto_top-twice [] a b functions more placed = refl
onto_top-twice (fn ∷ fns) a b functions more placed =
    update_at-append fn.index (with_calls b) (update_at fn.index (with_calls a) functions) more
      (omega (arith, placed, length-update_at fn.index (with_calls a) functions))
    ∙ ap (λ fs. fs ++ more) (update_at-twice fn.index a b functions)

TopIn-grown :
    (fns : List FunctionRef) (a : List Call) (functions more : List Function)
    → TopIn fns functions
    → TopIn fns (onto_top fns a functions ++ more)
TopIn-grown [] a functions more placed = placed
TopIn-grown (fn ∷ fns) a functions more placed = omega (
  arith,
  placed,
  length-update_at fn.index (with_calls a) functions,
  length-append (update_at fn.index (with_calls a) functions) more,
)

pub IsPlaced-with_found : (s : State) (r : Found) → IsPlaced s → IsPlaced (with_found s r)
IsPlaced-with_found s r placed = TopIn-grown s.fn_stack r.own s.functions r.functions placed

-- The two parts one behind the other.
pub with_found-twice :
    (s : State) (r q : Found)
    → IsPlaced s
    → with_found (with_found s r) q ≡ with_found s (onto_found r q)
with_found-twice s r q placed i = record s {
  functions = functions_path i;
  except_handlers = append_assoc s.except_handlers r.handlers q.handlers i;
  calls = append_assoc s.calls r.calls q.calls i;
  aliases = q.aliases;
}
  where
    functions_path :
        onto_top s.fn_stack q.own (onto_top s.fn_stack r.own s.functions ++ r.functions)
          ++ q.functions
        ≡ onto_top s.fn_stack (r.own ++ q.own) s.functions ++ (r.functions ++ q.functions)
    functions_path =
        ap (λ fs. fs ++ q.functions)
          (onto_top-twice s.fn_stack r.own q.own s.functions r.functions placed)
        ∙ append_assoc (onto_top s.fn_stack (r.own ++ q.own) s.functions) r.functions q.functions
