-- ===== src/Tests/Logic.antt =====
-- `$(if ...)`, `$(or ...)` and `$(and ...)` with an expansion that keeps a record of its calls.
use gmake.Logic.{func_if, func_or, func_and, strip_whitespace}
use gmake.Logic.Order.{
  condition, AllEmpty, no_more, empty_one, NoneEmpty, no_others, filled_one, expanded,
}
use gmake.Prelude.{◌≡◌, refl, List, [], ◌∷◌, Bytes, codes, ◌=?◌, if◌then◌else◌}
use gmake.Text.{is_space}

-- `$e` is empty, and anything else stands for itself
abbrev traced : Bytes → List Bytes → Bytes × List Bytes
traced x calls = (if x =? codes "$e" then [] else x, x ∷ calls)

or_run :
    func_or traced [] (codes " $e " ∷ codes "  " ∷ codes " a " ∷ codes "b" ∷ []) []
    ≡ (codes "a", codes "a" ∷ codes "$e" ∷ [])
unfolding func_or is_space
or_run = refl

and_run :
    func_and traced [] (codes "a" ∷ codes "$e" ∷ codes "b" ∷ []) []
    ≡ ([], codes "$e" ∷ codes "a" ∷ [])
unfolding func_and is_space
and_run = refl

if_run :
    func_if traced [] (codes " $e ") (codes "x" ∷ codes "y" ∷ []) []
    ≡ (codes "y", codes "y" ∷ codes "$e" ∷ [])
unfolding func_if is_space
if_run = refl

abbrev after_empty : List Bytes
after_empty = codes "$e" ∷ []

empty_condition : condition traced (codes " $e ") [] ≡ ([], after_empty)
unfolding condition expanded strip_whitespace is_space
empty_condition = refl

filled_condition : condition traced (codes " a ") [] ≡ (codes "a", codes "a" ∷ [])
unfolding condition expanded strip_whitespace is_space
filled_condition = refl

one_empty : AllEmpty traced (codes " $e " ∷ []) [] after_empty
one_empty = empty_one _ [] [] after_empty after_empty empty_condition (no_more after_empty)

one_filled : NoneEmpty traced (codes " a " ∷ []) [] (codes "a" ∷ [])
one_filled =
    filled_one _ [] b'a' [] [] (codes "a" ∷ []) (codes "a" ∷ []) filled_condition
      (no_others (codes "a" ∷ []))
