-- ===== src/Model/Formula.antt =====
-- Formulas and verifiers of values: packages/itmat-types/src/types/utils.ts.
use dmp.Base.{Option}
use dmp.Model.Value.{Value, Clip}

pub data NodeType : Type 0 where
  operation variable self value map : NodeType

pub data MathOp : Type 0 where
  numerical_add numerical_minus numerical_multiply numerical_divide numerical_pow : MathOp
  string_concat string_substr type_conversion : MathOp

-- `IAST`; `children` is empty where the source has null.
mutual
  pub data Ast : Type 0 where
    node :
        (type : NodeType) (operator : Option MathOp) (value : Value) (parameters : Clip)
        → Asts
        → Ast

  pub data Asts : Type 0 where
    nil : Asts
    cons : Ast → Asts → Asts

pub data ConditionOp : Type 0 where
  numerical_equal numerical_not_equal numerical_less_than numerical_greater_than : ConditionOp
  numerical_not_less_than numerical_not_greater_than string_regex_match string_equal : ConditionOp
  general_is_null general_is_not_null : ConditionOp

-- `IValueVerifier`; the value is a text or a number.
pub record ValueVerifier : Type 0 where
  pub formula : Ast
  pub condition : ConditionOp
  pub value : Value
