-- ===== src/Expand.antt =====
-- make-4.4/src/expand.c: variable_expand_string, reference_variable and recursively_expand_for_file. What
-- lookup_variable goes through is a list of the variables in its order, in which a variable is a place; the flags
-- of its variables change in place. The list for a file (`file`) is the caller's, and messages are left out.
pub mod Dollars
pub mod Calls
pub mod Weight
pub mod Outcome
pub mod Finish
pub mod Loop
use gmake.Condition.{to_byte, advance}
use gmake.Pattern.{Unquoted, strneq, find_percent, patsubst_expand_pat}
use gmake.Prelude.{
  ℕ, zero, suc, ◌+◌, ◌-◌, Bool, true, false, not, ◌&&◌, ◌||◌, List, [], ◌∷◌, ◌++◌, Option, none,
  some, Bytes, ◌==◌, ◌=?◌, if◌then◌else◌, length, set, get_or, drop, take, leb, codes, ◌%◌,
}
use gmake.Text.{is_space}
use gmake.Text.Output.{variable_buffer_output}
use gmake.Variables.{Variable}

-- The buffer up to `o` and the variables; or a call of fatal: a variable that refers to itself, or a reference with
-- no end, or one of a function that is called. `unfinished` is a loop that is still going when its rounds are used up.
pub data Expansion : Type 0 where
  unfinished unterminated fatal : Expansion
  references_itself : Bytes → Expansion
  expanded : Bytes → List Variable → Expansion

-- the first variable of the name, with its place
unfoldable pub lookup_place : Bytes → List Variable → Option (ℕ × Variable)
lookup_place name [] = none
lookup_place name (v ∷ vars) =
    let further = lookup_place name vars in
    if v.name =? name
    then some (0, v)
    else (elim further [ none ↦ none | some (place, u) ↦ some (suc place, u) ])

-- the entry of the environment for a name, or the empty string
unfoldable pub env_value : Bytes → List Bytes → Bytes
env_value name [] = []
env_value name (e ∷ environ) =
    let further = env_value name environ in
    let rest = drop (length name) e in
    elim rest [
      | [] ↦ further
      | c ∷ value ↦ if c == b'=' && strneq e name (length name) then value else further
    ]

-- from behind the opening paren: the text up to the paren that closes it, and the rest from there; `none` where
-- the count of open ones is not below 0 at the end
unfoldable pub to_matching : ℕ → ℕ → ℕ → Bytes → Option (Bytes × Bytes)
to_matching opener closer count [] = none
to_matching opener closer count (c ∷ s) =
    let deeper = if c == opener then count + 1 else if c == closer then count - 1 else count in
    let rest = to_matching opener closer deeper s in
    if not (c == opener) && (c == closer && count == 0)
    then some ([], c ∷ s)
    else (elim rest [ none ↦ none | some (inner, from) ↦ some (c ∷ inner, from) ])

-- a text in the buffer, and then the expansion of another
abbrev pub append_to : Bytes → Expansion → Expansion
append_to o unfinished = unfinished
append_to o unterminated = unterminated
append_to o fatal = fatal
append_to o (references_itself name) = references_itself name
append_to o (expanded value vars) = expanded (variable_buffer_output o value) vars

-- `v->expanding = 0`, of the variable at a place
unfoldable pub leave : ℕ → List Variable → List Variable
leave place [] = []
leave zero (v ∷ vars) = record v { expanding = false } ∷ vars
leave (suc place) (v ∷ vars) = v ∷ leave place vars

-- `--v->exp_count` for one that is expanding, and `v->expanding = 1`
unfoldable pub entered : Variable → Variable
entered v = record v {
  expanding = true;
  exp_count = if v.expanding then v.exp_count - 1 else v.exp_count;
}

-- MAP_USERFUNC: letters and digits of the C locale, and `.`, `-` and `_`
unfoldable pub is_userfunc : ℕ → Bool
is_userfunc c =
    (leb 48 c && leb c 57)
    || (leb 65 c && leb c 90)
    || (leb 97 c && leb c 122)
    || (c == b'.' || (c == b'-' || c == b'_'))

-- the bytes of a function's name, and the rest
unfoldable pub name_run : Bytes → Bytes × Bytes
unfolding is_userfunc
name_run [] = ([], [])
name_run (c ∷ s) =
    let (name, rest) = name_run s in if is_userfunc c then (c ∷ name, rest) else ([], c ∷ s)

unfoldable pub in_table : List Bytes → Bytes → Bool
in_table [] name = false
in_table (entry ∷ table) name = let further = in_table table name in entry =? name || further

-- whether the function that a name stands for is in the table; the length of the name is an unsigned char
unfoldable pub is_function : List Bytes → Bytes → Bool
unfolding name_run in_table
is_function table s =
    let (name, rest) = name_run s in
    not (length name == 0) && in_table table (take (length name % 256) name)

-- the end of the string, or whitespace
unfoldable pub ends_name : Bytes → Bool
unfolding is_space
ends_name [] = true
ends_name (c ∷ s) = is_space c

unfoldable pub lookup_function : List Bytes → Bytes → Bool
unfolding is_function ends_name
lookup_function table s = ends_name (name_run s).1 && is_function table s

-- function_table_init, as hash_load puts it into function_table
abbrev pub function_table_init : List Bytes
function_table_init =
    codes "abspath"
    ∷ codes "addprefix"
    ∷ codes "addsuffix"
    ∷ codes "basename"
    ∷ codes "dir"
    ∷ codes "notdir"
    ∷ codes "subst"
    ∷ codes "suffix"
    ∷ codes "filter"
    ∷ codes "filter-out"
    ∷ codes "findstring"
    ∷ codes "firstword"
    ∷ codes "flavor"
    ∷ codes "join"
    ∷ codes "lastword"
    ∷ codes "patsubst"
    ∷ codes "realpath"
    ∷ codes "shell"
    ∷ codes "sort"
    ∷ codes "strip"
    ∷ codes "wildcard"
    ∷ codes "word"
    ∷ codes "wordlist"
    ∷ codes "words"
    ∷ codes "origin"
    ∷ codes "foreach"
    ∷ codes "let"
    ∷ codes "call"
    ∷ codes "info"
    ∷ codes "error"
    ∷ codes "warning"
    ∷ codes "intcmp"
    ∷ codes "if"
    ∷ codes "or"
    ∷ codes "and"
    ∷ codes "value"
    ∷ codes "eval"
    ∷ codes "file"
    ∷ []

-- function_table; what handle_function does with a function that it has found, from the opening paren on, and the text
-- behind it; allocated_variable_append; both with any outcome; env_recursion; the environment
pub record Functions : Type 0 where
  pub function_table : List Bytes
  pub call_function : Bytes → List Variable → Expansion × Bytes
  pub variable_append : ℕ → List Variable → Expansion
  pub env_recursion : Bool
  pub environ : List Bytes

-- `none` where no function stands behind the opening paren
unfoldable pub handle_function : Functions → ℕ → Bytes → List Variable → Option (Expansion × Bytes)
unfolding lookup_function
handle_function f opener beg vars =
    if lookup_function f.function_table beg
    then some (f.call_function (opener ∷ beg) vars)
    else none

abbrev pub done : ℕ → Expansion → Expansion
unfolding leave
done place unfinished = unfinished
done place unterminated = unterminated
done place fatal = fatal
done place (references_itself name) = references_itself name
done place (expanded value vars) = expanded value (leave place vars)

-- `f` is the code that is called; `expand` is allocated_variable_expand
module _ (f : Functions) (expand : Bytes → List Variable → Expansion) where
  unfoldable pub recursively_expand : ℕ → Variable → List Variable → Expansion
  unfolding env_value entered done leave
  recursively_expand place v vars =
      if v.expanding && f.env_recursion
      then expanded (env_value v.name f.environ) vars
      else if v.expanding && v.exp_count == 0
      then references_itself v.name
      else let inside = set vars place (entered v) in
        done place (if v.append then f.variable_append place inside else expand v.value inside)

  unfoldable pub variable_value : ℕ → Variable → List Variable → Expansion
  unfolding recursively_expand
  variable_value place v vars =
      if v.recursive then recursively_expand place v vars else expanded v.value vars

  unfoldable pub reference_variable : Bytes → Bytes → List Variable → Expansion
  unfolding lookup_place variable_value
  reference_variable o name vars = elim (lookup_place name vars) [
    | none ↦ expanded o vars
    | some (place, v) ↦
        if length v.value == 0 && not v.append
        then expanded o vars
        else append_to o (variable_value place v vars)
  ]

  -- `$(FOO:A=B)`: without a % in A, both A and B stand behind one
  unfoldable pub substitute : Bytes → Bytes → Bytes → Expansion → Expansion
  unfolding find_percent patsubst_expand_pat
  substitute o subst replace unfinished = unfinished
  substitute o subst replace unterminated = unterminated
  substitute o subst replace fatal = fatal
  substitute o subst replace (references_itself name) = references_itself name
  substitute o subst replace (expanded value vars) =
      let (prefix, percent) = find_percent subst in
      elim percent [
        | some suffix ↦
            expanded (patsubst_expand_pat o value (prefix, some suffix) (find_percent replace)) vars
        | none ↦ expanded (patsubst_expand_pat o value ([], some prefix) ([], some replace)) vars
      ]

  unfoldable pub substitution_reference : Bytes → Bytes → Bytes → Bytes → List Variable → Expansion
  unfolding lookup_place variable_value substitute
  substitution_reference o name subst replace vars = elim (lookup_place name vars) [
    | none ↦ expanded o vars
    | some (place, v) ↦
        if length v.value == 0
        then expanded o vars
        else substitute o subst replace (variable_value place v vars)
  ]

  -- the text between the parens, its own references expanded
  unfoldable pub expand_reference : Bytes → Bytes → List Variable → Expansion
  unfolding to_byte reference_variable substitution_reference
  expand_reference o name vars =
      let (variable, colon) = to_byte b':' name in
      elim colon [
        | [] ↦ reference_variable o name vars
        | c ∷ rest ↦
            let (subst, equals) = to_byte b'=' rest in
            elim equals [
              | [] ↦ reference_variable o name vars
              | e ∷ replace ↦ substitution_reference o variable subst replace vars
            ]
      ]

  -- the same with a name that was expanded first
  unfoldable pub expand_named : Bytes → Expansion → Expansion
  unfolding expand_reference
  expand_named o unfinished = unfinished
  expand_named o unterminated = unterminated
  expand_named o fatal = fatal
  expand_named o (references_itself name) = references_itself name
  expand_named o (expanded name vars) = expand_reference o name vars

  -- A reference in parens or braces, with the place `p` where the scan goes on: at the closing one, or at the end of
  -- the string where the name has a `$` and the parens do not match.
  unfoldable pub expand_parens : ℕ → ℕ → Bytes → Bytes → List Variable → Expansion × Bytes
  unfolding to_byte to_matching expand_named expand_reference handle_function
  expand_parens opener closer o beg vars = elim (handle_function f opener beg vars) [
    | some (r, p) ↦ (append_to o r, p)
    | none ↦
        let (name, end) = to_byte closer beg in
        elim end [
          | [] ↦ (unterminated, [])
          | e ∷ rest ↦ elim (to_byte b'$' name).1 [
            | [] ↦ (expand_reference o name vars, e ∷ rest)
            | dollar ∷ more ↦ elim (to_matching opener closer 0 beg) [
              | none ↦ (expand_reference o name vars, [])
              | some (inner, p) ↦ (expand_named o (expand inner vars), p)
            ]
          ]
        ]
  ]

  -- Behind a `$` that a byte follows. The code tests for whitespace in `p[-1]`, which is the `$`.
  unfoldable pub expand_dollar : Bytes → ℕ → Bytes → List Variable → Expansion × Bytes
  unfolding expand_parens reference_variable
  expand_dollar o c s vars =
      if c == b'$'
      then (expanded (variable_buffer_output o (b'$' ∷ [])) vars, c ∷ s)
      else if c == b'('
      then expand_parens b'(' b')' o s vars
      else if c == b'{'
      then expand_parens b'{' b'}' o s vars
      else (reference_variable o (c ∷ []) vars, c ∷ s)

-- from the `$` on, with the rounds that are left
unfoldable pub expand_rest :
    Functions
    → (Bytes → Bytes → List Variable → Expansion)
    → Bytes
    → Bytes
    → List Variable
    → Expansion
unfolding expand_dollar advance
expand_rest f again o [] vars = expanded o vars
expand_rest f again o (dollar ∷ []) vars = expanded (variable_buffer_output o (dollar ∷ [])) vars
expand_rest f again o (dollar ∷ c ∷ s) vars =
    let (r, rest) = expand_dollar f (again []) o c s vars in
    elim r [ expanded next after ↦ again next (advance rest) after | stop ↦ stop ]

-- the loop of variable_expand_string, on fuel, from the place `p` with the buffer up to `o`
unfoldable pub expand_from : Functions → ℕ → Bytes → Bytes → List Variable → Expansion
unfolding to_byte expand_rest
expand_from f zero o p vars = unfinished
expand_from f (suc fuel) o p vars =
    let (plain, from) = to_byte b'$' p in
    expand_rest f (expand_from f fuel) (variable_buffer_output o plain) from vars

-- variable_expand_string into an empty buffer
unfoldable pub variable_expand : Functions → ℕ → Bytes → List Variable → Expansion
unfolding expand_from
variable_expand f fuel string vars = expand_from f fuel [] string vars
