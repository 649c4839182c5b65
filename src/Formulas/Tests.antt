-- ===== src/Formulas/Tests.antt =====
-- Tests of utilsCore.ts.
use dmp.Base.{ℕ, ◌+◌, ◌-◌, ◌*◌, ◌/◌, ◌^◌, ◌≡◌, refl, String, true, none, some, [], ◌∷◌, inr}
use dmp.Model.Value.{read, null, number, text}
use dmp.Samples.{sample_env, sample_js}
use dmp.Formulas.{
  parse_input_to_number, Ast, node, nil, cons, operation, value, map, type_conversion, ok,
  iast_helper, valid_value_with_verifier, numerical_less_than,
}
use dmp.Formulas.Arithmetic.{
  ArithmeticOp, add, minus, multiply, divide, pow, Expr, literal, datum, apply, compile, denote,
  numeral, ComputesBy, ConvertsName, iast_helper-compile, iast_helper-ConvertsName,
}

-- 2 * x + 1
abbrev odd : Expr
odd = apply add (apply multiply (literal 2) datum) (literal 1)

odd_value : iast_helper sample_js (compile odd) (number 5) ≡ ok (number 11)
unfolding iast_helper parse_input_to_number
odd_value = refl

below_twelve :
    valid_value_with_verifier sample_env
      (number 5)
      (record { formula = compile odd; condition = numerical_less_than; value = number 12 })
    ≡ ok true
unfolding valid_value_with_verifier iast_helper
below_twelve = refl

renamed :
    iast_helper sample_js (node map none null (("a", text "b") ∷ []) nil) (text "a") ≡ ok (text "b")
unfolding iast_helper read
renamed = refl

abbrev by_codes : ArithmeticOp → ℕ → ℕ → ℕ
by_codes add m n = m + n
by_codes minus m n = m - n
by_codes multiply m n = m * n
by_codes divide m n = m / n
by_codes pow m n = m ^ n

sample_computes : ComputesBy sample_js by_codes
sample_computes add m n = refl
sample_computes minus m n = refl
sample_computes multiply m n = refl
sample_computes divide m n = refl
sample_computes pow m n = refl

iast_helper-compile_example :
    ((e : Expr) (n : ℕ)
      → iast_helper sample_js (compile e) (number n) ≡ ok (number (denote by_codes n e)))
    × ((o : ArithmeticOp) (a b : Expr) (s : String)
        → iast_helper sample_js (compile (apply o a b)) (text s)
          ≡ ok (number (denote by_codes (numeral sample_js s) (apply o a b))))
iast_helper-compile_example = iast_helper-compile sample_js by_codes sample_computes

abbrev to_int : Ast
to_int = node value none (text "INT") [] nil

iast_helper-ConvertsName_example : ConvertsName sample_js (
    iast_helper sample_js
      (node operation (some type_conversion) null [] (cons to_int (cons (compile datum) nil)))
      (text "7"))
iast_helper-ConvertsName_example =
    iast_helper-ConvertsName sample_js null to_int (compile datum) (inr "7")
