-- ===== src/Formulas/Arithmetic.antt =====
-- What formulas of the arithmetic operators compute, and what a type conversion answers.
use package.text.Mathlib.Text.{find?}
use dmp.Base.{
  ℕ, ◌≡◌, refl, String, none, some, [], ◌∷◌, is_some, eq_iff, if◌then◌else◌, inl, inr, ◌⊎◌, ◌==◌,
  Bool-cases,
}
use dmp.Model.Value.{Value, undefined, null, boolean, number, text, array, object, inherited, Js}
use dmp.Formulas.{
  Ast, node, nil, cons, operation, value, self, MathOp, numerical_add, numerical_minus,
  numerical_multiply, numerical_divide, numerical_pow, type_conversion, Outcome, ok, failed,
  iast_helper, parse_input_to_number, conversion, Child,
}

pub data ArithmeticOp : Type 0 where
  add minus multiply divide pow : ArithmeticOp

-- An expression over one number.
pub data Expr : Type 0 where
  literal : ℕ → Expr
  datum : Expr
  apply : ArithmeticOp → Expr → Expr → Expr

abbrev pub math_op : ArithmeticOp → MathOp
math_op add = numerical_add
math_op minus = numerical_minus
math_op multiply = numerical_multiply
math_op divide = numerical_divide
math_op pow = numerical_pow

abbrev pub js_op : Js → ArithmeticOp → Value → Value → Value
js_op js add = js.plus
js_op js minus = js.minus
js_op js multiply = js.times
js_op js divide = js.divide
js_op js pow = js.power

-- The formula that a client sends for an expression.
abbrev pub compile : Expr → Ast
compile (literal n) = node value none (number n) [] nil
compile datum = node self none null [] nil
compile (apply o a b) =
    node operation (some (math_op o)) null [] (cons (compile a) (cons (compile b) nil))

module _ (on : ArithmeticOp → ℕ → ℕ → ℕ) where
  abbrev pub denote : ℕ → Expr → ℕ
  denote n (literal m) = m
  denote n datum = n
  denote n (apply o a b) = on o (denote n a) (denote n b)

-- On numbers the language's operators are these.
abbrev pub ComputesBy : Js → (ArithmeticOp → ℕ → ℕ → ℕ) → Type 0
ComputesBy js on =
    (o : ArithmeticOp) (m n : ℕ) → js_op js o (number m) (number n) ≡ number (on o m n)

-- The number that a text is read as.
abbrev pub numeral : Js → String → ℕ
numeral js s = if is_some (find? s ".") then js.parse_float s else js.parse_int s

module _ (js : Js) (on : ArithmeticOp → ℕ → ℕ → ℕ) (by : ComputesBy js on) where
  on_number :
      (e : Expr) (n : ℕ) → iast_helper js (compile e) (number n) ≡ ok (number (denote on n e))
  unfolding iast_helper parse_input_to_number
  on_number (literal m) n = refl
  on_number datum n = refl
  on_number (apply add a b) n = rw (on_number a n, on_number b n, by add) refl
  on_number (apply minus a b) n = rw (on_number a n, on_number b n, by minus) refl
  on_number (apply multiply a b) n = rw (on_number a n, on_number b n, by multiply) refl
  on_number (apply divide a b) n = rw (on_number a n, on_number b n, by divide) refl
  on_number (apply pow a b) n = rw (on_number a n, on_number b n, by pow) refl

  on_text :
      (o : ArithmeticOp) (a b : Expr) (s : String)
      → iast_helper js (compile (apply o a b)) (text s)
        ≡ ok (number (denote on (numeral js s) (apply o a b)))
  unfolding iast_helper parse_input_to_number
  on_text add a b s = rw (on_number a (numeral js s), on_number b (numeral js s), by add) refl
  on_text minus a b s = rw (on_number a (numeral js s), on_number b (numeral js s), by minus) refl
  on_text multiply a b s =
      rw (on_number a (numeral js s), on_number b (numeral js s), by multiply) refl
  on_text divide a b s = rw (on_number a (numeral js s), on_number b (numeral js s), by divide) refl
  on_text pow a b s = rw (on_number a (numeral js s), on_number b (numeral js s), by pow) refl

-- Where the language's operators compute numbers from numbers, `IASTHelper` ends without an error on
-- the formula of any arithmetic expression: on a number it gives the value of the expression there, and
-- on a text, where the expression is an operation, its value at the number that the text is read as.
pub iast_helper-compile :
    (js : Js) (on : ArithmeticOp → ℕ → ℕ → ℕ)
    → ComputesBy js on
    → ((e : Expr) (n : ℕ) → iast_helper js (compile e) (number n) ≡ ok (number (denote on n e)))
      × ((o : ArithmeticOp) (a b : Expr) (s : String)
          → iast_helper js (compile (apply o a b)) (text s)
            ≡ ok (number (denote on (numeral js s) (apply o a b))))
iast_helper-compile js on by = (on_number js on by, on_text js on by)

-- What a conversion can answer: the name of the type, converted to that type.
abbrev pub ConvertsName : Js → Outcome Value → Type 0
ConvertsName js (failed e) = Unit
ConvertsName js (ok v) =
    (v ≡ number (js.floor_number (text "INT")))
    ⊎ ((v ≡ number (js.parse_float (js.to_text (text "FLOAT"))))
        ⊎ (v ≡ text (js.to_text (text "STRING"))))

named-ConvertsName :
    (js : Js) (f g : Child) (d : Value) (s : String)
    → f d ≡ ok (text s)
    → ConvertsName js (conversion js (f ∷ g ∷ []) d)
unfolding conversion
named-ConvertsName js f g d s e = rw e (elim (Bool-cases (s == "INT")) [
  | inl h ↦ let same = (eq_iff s "INT").0 h in rw (h, same) (inl refl)
  | inr h ↦ elim (Bool-cases (s == "FLOAT")) [
    | inl k ↦ let same = (eq_iff s "FLOAT").0 k in rw (h, k) (rw same (inr (inl refl)))
    | inr k ↦ elim (Bool-cases (s == "STRING")) [
      | inl l ↦ let same = (eq_iff s "STRING").0 l in rw (h, k, l) (rw same (inr (inr refl)))
      | inr l ↦ rw (h, k, l) tt
    ]
  ]
])

conversion-ConvertsName :
    (js : Js) (f g : Child) (d : Value) (o : Outcome Value)
    → f d ≡ o
    → ConvertsName js (conversion js (f ∷ g ∷ []) d)
unfolding conversion
conversion-ConvertsName js f g d (failed x) e = rw e tt
conversion-ConvertsName js f g d (ok (text s)) e = named-ConvertsName js f g d s e
conversion-ConvertsName js f g d (ok undefined) e = rw e tt
conversion-ConvertsName js f g d (ok null) e = rw e tt
conversion-ConvertsName js f g d (ok (boolean b)) e = rw e tt
conversion-ConvertsName js f g d (ok (number n)) e = rw e tt
conversion-ConvertsName js f g d (ok (array vs)) e = rw e tt
conversion-ConvertsName js f g d (ok (object es)) e = rw e tt
conversion-ConvertsName js f g d (ok (inherited k)) e = rw e tt

-- A `TYPECONVERSION` node with two children, on any number or text: where it answers, the answer is the
-- name of the type (INT, FLOAT or STRING) converted to that type, whatever the second child and the datum
-- are.
pub iast_helper-ConvertsName :
    (js : Js) (v : Value) (a b : Ast) (d : ℕ ⊎ String)
    → ConvertsName js (
        iast_helper js
          (node operation (some type_conversion) v [] (cons a (cons b nil)))
          (elim d [ inl n ↦ number n | inr s ↦ text s ]))
unfolding iast_helper
iast_helper-ConvertsName js v a b (inl n) =
    conversion-ConvertsName js (λ d. iast_helper js a d) (λ d. iast_helper js b d) (number n)
      (iast_helper js a (number n)) refl
iast_helper-ConvertsName js v a b (inr s) =
    conversion-ConvertsName js (λ d. iast_helper js a d) (λ d. iast_helper js b d) (text s)
      (iast_helper js a (text s)) refl
