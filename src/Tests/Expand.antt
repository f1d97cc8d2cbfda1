-- ===== src/Tests/Expand.antt =====
-- References and what they expand to.
use gmake.Expand.{
  Expansion, unterminated, fatal, references_itself, expanded, Functions, variable_expand,
  function_table_init, lookup_function,
}
use gmake.Expand.Dollars.{expand-double_dollars}
use gmake.Expand.Calls.{opens_call}
use gmake.Flavors.{double_dollars}
use gmake.Prelude.{
  not, ◌&&◌, ◌==◌, ℕ, zero, suc, Bool, ◌++◌, ◌≡◌, refl, true, false, Bytes, codes, List, [], ◌∷◌,
  arith,
}
use gmake.Text.{tokens, next_token, is_space}
use gmake.Variables.{Variable, variable_key}

-- the functions of make, of which any call would end it
abbrev calls_end : Functions
calls_end = record {
  function_table = function_table_init;
  call_function = λ text vars. (fatal, []);
  variable_append = λ place vars. fatal;
  env_recursion = false;
  environ = [];
}

no_call : Bytes → Bool
no_call [] = true
no_call (c ∷ s) =
    let rest = no_call s in not (c == b'$' && opens_call function_table_init s) && rest

abbrev letters : ℕ → Bytes
letters zero = []
letters (suc n) = b'x' ∷ letters n

abbrev recursive_variable : Bytes → Bytes → Variable
recursive_variable name value = record (variable_key name) { value = value; recursive = true }

-- CC = $(X) -g, X = $(NAME:.c=.o), NAME = a.c b.h, LOOP = $(BACK), BACK = $(LOOP)
abbrev vars : List Variable
vars =
    recursive_variable (codes "CC") (codes "$(X) -g")
    ∷ recursive_variable (codes "X") (codes "${NAME:.c=.o}")
    ∷ recursive_variable (codes "NAME") (codes "a.c b.h")
    ∷ recursive_variable (codes "LOOP") (codes "$(BACK)")
    ∷ recursive_variable (codes "BACK") (codes "$(LOOP)")
    ∷ recursive_variable (codes "a") (codes "NAME")
    ∷ []

-- a name is followed by whitespace or the end, and its length is taken modulo 256
lookup_run :
    (lookup_function function_table_init (codes "sort a)") ≡ true)
    × (lookup_function function_table_init (codes "sort)") ≡ false)
    × (lookup_function function_table_init (codes "sorted a)") ≡ false)
    × (lookup_function function_table_init (codes "sort" ++ (letters 256 ++ codes " a)")) ≡ true)
unfolding lookup_function is_space
lookup_run = (refl, refl, refl, refl)

call_run : variable_expand calls_end 60 (codes "$(sort a)") vars ≡ fatal
unfolding variable_expand is_space
call_run = refl

abbrev run : Bytes → Expansion
run text = variable_expand calls_end 60 text vars

nested_run : run (codes "[$(CC)] $$ $a") ≡ expanded (codes "[a.o b.h -g] $ NAME") vars
unfolding variable_expand tokens next_token is_space
nested_run = refl

computed_run : run (codes "$($(a)) $($a:h=c) $(none)$") ≡ expanded (codes "a.c b.h a.c b.c $") vars
unfolding variable_expand tokens next_token is_space
computed_run = refl

itself_run : run (codes "x $(LOOP)") ≡ references_itself (codes "LOOP")
unfolding variable_expand tokens next_token is_space
itself_run = refl

unterminated_run : run (codes "x $(CC") ≡ unterminated
unfolding variable_expand tokens next_token is_space
unterminated_run = refl

-- the text behind the closing paren is lost where the parens do not match
dropped_run : run (codes "$($(a) b c") ≡ expanded [] vars
unfolding variable_expand tokens next_token is_space
dropped_run = refl

expand-double_dollars_example :
    variable_expand calls_end 6 (double_dollars (codes "a$(b")) vars ≡ expanded (codes "a$(b") vars
expand-double_dollars_example = expand-double_dollars calls_end (codes "a$(b") 6 vars (omega arith)
