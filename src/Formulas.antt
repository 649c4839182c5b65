-- ===== src/Formulas.antt =====
-- Formulas and verifiers of values: packages/itmat-cores/src/coreFunc/utilsCore.ts.
mod Tests
pub mod Arithmetic
use Prim.Native.String.{◌++◌ as push_str}
use package.text.Mathlib.Text.{find?}
use dmp.Base.{
  String, Bool, true, false, Option, none, some, List, [], ◌∷◌, if◌then◌else◌, is_some, not, ◌==◌,
}
use dmp.Model.Value.{
  Value, undefined, null, boolean, number, text, array, object, inherited, Clip, Js, entries, read,
  holds, strict_equal, is_null, is_undefined,
}
pub use dmp.Model.Formula.{
  NodeType, operation, variable, self, value, map, MathOp, numerical_add, numerical_minus,
  numerical_multiply, numerical_divide, numerical_pow, string_concat, string_substr,
  type_conversion, Ast, node, Asts, nil, cons, ConditionOp, numerical_equal, numerical_not_equal,
  numerical_less_than, numerical_greater_than, numerical_not_less_than, numerical_not_greater_than,
  string_regex_match, string_equal, general_is_null, general_is_not_null, ValueVerifier,
}
use dmp.Model.World.{Env}
use dmp.Model.Action.{CoreErrors, client_malformed_input}

-- What a computation throws: a `CoreError`, an `Error` with a message, or the language's `TypeError`.
-- `untyped` stands for a run on values of another shape than the declared types have.
pub data Failure : Type 0 where
  core : CoreErrors → String → Failure
  plain : String → Failure
  type_error untyped : Failure

pub data Outcome (A : Type 0) : Type 0 where
  ok : A → Outcome A
  failed : Failure → Outcome A

infixl 5 ◌>>=◌ ◌>>◌
abbrev pub ◌>>=◌ : {A B : Type 0} → Outcome A → (A → Outcome B) → Outcome B
ok a >>= f = f a
failed e >>= f = failed e

abbrev pub ◌>>◌ : {A B : Type 0} → Outcome A → Outcome B → Outcome B
m >> n = m >>= λ _. n

-- `parseInputToNumber`
unfoldable pub parse_input_to_number : Js → Value → Outcome Value
parse_input_to_number js (number n) = ok (number n)
parse_input_to_number js (text s) =
    ok (number (if is_some (find? s ".") then js.parse_float s else js.parse_int s))
parse_input_to_number js _ = failed (plain "Input must be a number or a string")

-- `v.toString()`
abbrev pub to_string : Js → Value → Outcome String
to_string js undefined = failed type_error
to_string js null = failed type_error
to_string js v = ok (js.to_text v)

-- `v[k]`
abbrev pub property : Js → Value → String → Outcome Value
property js undefined k = failed type_error
property js null k = failed type_error
property js (object es) k = ok (read k (entries es))
property js v k = ok (js.member v k)

-- The loop over the keys of a variable; `undefined` where one is missing.
unfoldable pub follow : Js → Value → List String → Outcome Value
follow js current [] = ok current
follow js current (k ∷ ks) = property js current k >>= λ v.
    let rest = follow js v ks in if is_undefined v then ok undefined else rest

-- A child, as the evaluation of the datum that it is given.
abbrev pub Child : Type 0
Child = Value → Outcome Value

mismatch : Outcome Value
mismatch = failed (core client_malformed_input "Operator and children does not match.")

abbrev operator_of : Js → MathOp → Option (Value → Value → Value)
operator_of js numerical_add = some js.plus
operator_of js numerical_minus = some js.minus
operator_of js numerical_multiply = some js.times
operator_of js numerical_divide = some js.divide
operator_of js numerical_pow = some js.power
operator_of js _ = none

-- An operation with two children, each on the datum as a number.
arithmetic : Js → (Value → Value → Value) → List Child → Value → Outcome Value
unfolding mismatch
arithmetic js op (f ∷ g ∷ []) datum = do
  m ← parse_input_to_number js datum
  a ← f m
  n ← parse_input_to_number js datum
  b ← g n
  ok (op a b)
arithmetic js op _ datum = mismatch

-- `children.reduce((a, c) => a + …toString(), '')`
concat_from : Js → String → List Child → Value → Outcome Value
concat_from js a [] datum = ok (text a)
concat_from js a (f ∷ fs) datum =
    f datum >>= λ v. to_string js v >>= λ s. concat_from js (push_str a s) fs datum

concat : Js → List Child → Value → Outcome Value
unfolding mismatch concat_from
concat js [] datum = mismatch
concat js (f ∷ fs) datum = concat_from js "" (f ∷ fs) datum

substring : Js → List Child → Value → Outcome Value
unfolding mismatch
substring js (f ∷ g ∷ h ∷ []) datum = do
  v ← f datum
  s ← to_string js v
  from ← g datum
  whole ← to_string js datum
  length ← h (text whole)
  ok (text (js.substr s from length))
substring js _ datum = mismatch

abbrev type_named : Value → String
type_named (text s) = s
type_named _ = ""

-- The type's name is the first child, and so is what is converted: the second is never read.
conversion : Js → List Child → Value → Outcome Value
unfolding mismatch
conversion js (f ∷ g ∷ []) datum = do
  new_type ← f datum
  v ← f datum
  if type_named new_type == "INT"
      then ok (number (js.floor_number v))
      else if type_named new_type == "FLOAT"
      then (to_string js v >>= λ s. ok (number (js.parse_float s)))
      else if type_named new_type == "STRING"
      then (to_string js v >>= λ s. ok (text s))
      else failed
          (core client_malformed_input "Type converstion only supports INT, FLOAT and STRING.")
conversion js _ datum = mismatch

operate : Js → MathOp → List Child → Value → Outcome Value
unfolding arithmetic concat substring conversion
operate js string_concat fs datum = concat js fs datum
operate js string_substr fs datum = substring js fs datum
operate js type_conversion fs datum = conversion js fs datum
operate js op fs datum = elim (operator_of js op) [
  | some o ↦ arithmetic js o fs datum
  | none ↦ mismatch
]

unfoldable pub bad_node : Outcome Value
bad_node = failed (core client_malformed_input "Node type must be OPERATION,, SELF or VALUE")

-- The branch of an `OPERATION` node, on a number or a text.
operation_on : Js → Option MathOp → List Child → Value → Outcome Value
unfolding operate
operation_on js none fs datum =
    failed (core client_malformed_input "OPEARTION node must have an operator")
operation_on js (some op) fs datum = operate js op fs datum

-- The branch of a `MAP` node, on a text: `root.parameters[data] ?? data`
map_to : Value → Value → Value
map_to undefined d = d
map_to null d = d
map_to v d = v

-- A node, with its children evaluated on demand.
visit : Js → NodeType → Option MathOp → Value → Clip → List Child → Value → Outcome Value
unfolding operation_on bad_node map_to follow
visit js value op v parameters fs datum = ok v
visit js self op v parameters fs datum = ok datum
visit js map op v parameters fs (text s) = ok (map_to (read s parameters) (text s))
visit js variable op (text s) parameters fs datum =
    if s == "" then bad_node else follow js datum (js.parts s)
visit js variable op v parameters fs datum = if holds js v then failed type_error else bad_node
visit js operation op v parameters fs (number n) = operation_on js op fs (number n)
visit js operation op v parameters fs (text s) = operation_on js op fs (text s)
visit js _ op v parameters fs datum = bad_node

-- `IASTHelper`
unfoldable mutual
  unfolding visit

  pub iast_helper : Js → Ast → Value → Outcome Value
  iast_helper js (node type op v parameters children) datum =
      visit js type op v parameters (helpers js children) datum

  pub helpers : Js → Asts → List (Value → Outcome Value)
  helpers js nil = []
  helpers js (cons c cs) = (λ datum. iast_helper js c datum) ∷ helpers js cs

-- `validValueWithVerifier`
unfoldable pub valid_value_with_verifier : Env → Value → ValueVerifier → Outcome Bool
unfolding parse_input_to_number
valid_value_with_verifier env v verifier = do
  let js = env.js
  let wanted = verifier.value
  calculated ← iast_helper js verifier.formula v
  elim verifier.condition [
    | numerical_equal ↦ parse_input_to_number js wanted >>= λ n. ok (strict_equal js calculated n)
    | numerical_not_equal ↦ ok (not (strict_equal js calculated wanted))
    | numerical_less_than ↦ ok (js.less calculated wanted)
    | numerical_greater_than ↦ ok (js.less wanted calculated)
    | numerical_not_less_than ↦ ok (js.at_most wanted calculated)
    | numerical_not_greater_than ↦ ok (js.at_most calculated wanted)
    | string_regex_match ↦
        to_string js wanted >>= λ r. to_string js calculated >>= λ s. ok (env.matches r s)
    | string_equal ↦ ok (strict_equal js calculated wanted)
    | general_is_not_null ↦ ok (not (is_null calculated))
    | general_is_null ↦ ok (is_null calculated)
  ]
