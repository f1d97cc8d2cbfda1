-- ===== src/Tests/Integers.antt =====
-- Integers as texts, and `$(intcmp ...)`, at concrete texts.
use gmake.Integers.{
  TextInt, minus, plus, number, fatal, empty_value, not_numeric, parse_textint, func_intcmp, buffer,
}
use gmake.Integers.Select.{integer_order, pick, func_intcmp-order}
use gmake.Prelude.{◌≡◌, ◌≢◌, ◌⊎◌, refl, [], ◌∷◌, ◌++◌, codes}
use gmake.Text.{is_space, next_token}

zeros_run : parse_textint (codes "  -0042 ") ≡ number (record { sign = minus; digits = codes "42" })
unfolding parse_textint next_token is_space
zeros_run = refl

sign_run : parse_textint (codes "+") ≡ fatal not_numeric
unfolding parse_textint next_token is_space
sign_run = refl

empty_run : parse_textint (codes "  ") ≡ fatal empty_value
unfolding parse_textint next_token is_space
empty_run = refl

-- -10 is less than -9, and the third part is expanded
negative_run :
    func_intcmp (λ s. s) [] (codes "-10") (codes "-9") (codes "lt" ∷ codes "eq" ∷ codes "gt" ∷ [])
    ≡ buffer (codes "gt")
unfolding func_intcmp next_token is_space
negative_run = refl

abbrev minus_ten : TextInt
minus_ten = record { sign = minus; digits = codes "10" }

abbrev nine : TextInt
nine = record { sign = plus; digits = codes "9" }

minus_ten_run : parse_textint (codes " -010") ≡ number minus_ten
unfolding parse_textint next_token is_space
minus_ten_run = refl

nine_run : parse_textint (codes "+9 ") ≡ number nine
unfolding parse_textint next_token is_space
nine_run = refl

func_intcmp-order_example :
    (minus_ten.sign ≢ minus ⊎ nine.sign ≢ minus
      → func_intcmp
          (λ s. s)
          []
          (codes " -010")
          (codes "+9 ")
          (codes "lt" ∷ codes "eq" ∷ codes "gt" ∷ [])
        ≡ buffer ([] ++ pick (integer_order minus_ten nine) (codes "lt") (codes "eq") (codes "gt")))
    × (minus_ten.sign ≡ minus
        → nine.sign ≡ minus
        → func_intcmp
            (λ s. s)
            []
            (codes " -010")
            (codes "+9 ")
            (codes "lt" ∷ codes "eq" ∷ codes "gt" ∷ [])
          ≡ buffer
              ([] ++ pick (integer_order nine minus_ten) (codes "lt") (codes "eq") (codes "gt")))
func_intcmp-order_example =
    func_intcmp-order (λ s. s) [] (codes " -010") (codes "+9 ") (codes "lt") (codes "eq")
      (codes "gt") minus_ten nine minus_ten_run nine_run
