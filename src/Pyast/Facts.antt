-- ===== src/Pyast/Facts.antt =====
-- The facts of checkers/pyast_client.py.
use deslop.Prelude.{ℕ, Bool, List, Text, Option, Dict}

pub record Call : Type 0 where
  pub name : Text
  pub line : Option ℕ
  pub keywords : List Text
  pub args_summary : List Text
  pub keyword_values : Dict Text Text
  pub has_starargs : Bool
  pub has_kwargs : Bool
  pub first_arg_kind : Option Text
  pub first_arg_summary : Option Text
  pub in_try : Bool

pub record ExceptHandler : Type 0 where
  pub line : Option ℕ
  pub type : Option Text
  pub body_kind : Text
  pub in_function : Option Text

pub record Function : Type 0 where
  pub name : Text
  pub is_async : Bool
  pub line_start : ℕ
  pub line_end : ℕ
  pub decorators : List Text
  pub calls : List Call

pub record Facts : Type 0 where
  pub calls : List Call
  pub except_handlers : List ExceptHandler
  pub functions : List Function
