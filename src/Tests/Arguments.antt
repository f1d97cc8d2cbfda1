-- ===== src/Tests/Arguments.antt =====
-- find_next_argument and unescape_char at concrete texts.
use gmake.Arguments.{
  find_next_argument, Balanced, nothing, other, nested, round, find_next_argument-Balanced,
}
use gmake.Escapes.{unescape_char, unescape_char-quote}
use gmake.Pattern.Quotes.{quote_from}
use gmake.Prelude.{◌≡◌, refl, [], ◌∷◌, ◌++◌, codes, none, some, arith}

comma_run : find_next_argument b'(' b')' (codes "a(b,c)},d") ≡ some (codes ",d")
unfolding find_next_argument
comma_run = refl

unescape_run : unescape_char (codes "a\\#\\\\#\\b\\\\\\#") b'#' ≡ codes "a#\\\\#\\b\\#"
unfolding unescape_char
unescape_run = refl

-- `f(x,y)`
call-Balanced : Balanced b'(' b')' 0 (codes "f(x,y)")
call-Balanced =
    other 0 b'f' (codes "(x,y)") (λ e. omega arith) (λ e. omega arith) (λ _ e. omega arith)
      (nested 0 (codes "x,y") []
        (other 1 b'x' (codes ",y") (λ e. omega arith) (λ e. omega arith) (λ _ e. omega arith)
          (other 1 b',' (codes "y") (λ e. omega arith) (λ e. omega arith) (λ d. omega arith)
            (other 1 b'y' [] (λ e. omega arith) (λ e. omega arith) (λ _ e. omega arith)
              (nothing 1))))
        (nothing 0))

find_next_argument-Balanced_example :
    (find_next_argument b'(' b')' (codes "f(x,y)" ++ b',' ∷ codes "z)") ≡ some (b',' ∷ codes "z)"))
    × (find_next_argument b'(' b')' (codes "f(x,y)" ++ b')' ∷ codes "z)") ≡ none)
    × (find_next_argument b'(' b')' (codes "f(x,y)") ≡ none)
find_next_argument-Balanced_example =
    find_next_argument-Balanced b'(' b')' (codes "f(x,y)") (codes "z)") round call-Balanced

unescape_char-quote_example :
    unescape_char (quote_from b'#' (λ k. k) 0 (codes "a\\#b\\")) b'#' ≡ codes "a\\#b\\"
unescape_char-quote_example = unescape_char-quote b'#' (codes "a\\#b\\") (λ e. omega arith)
