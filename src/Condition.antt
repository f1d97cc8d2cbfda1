-- ===== src/Condition.antt =====
-- make-4.4/src/read.c, conditional_line: the operands of `ifeq`, `ifneq`, `ifdef` and `ifndef`, and
-- the test that they stand for. Variable expansion and lookup (make-4.4/src/expand.c and variable.c)
-- are the section's parameters: a text for a text, and the value of a defined variable.
use gmake.Prelude.{
  ℕ, ◌+◌, ◌-◌, Bool, true, false, not, ◌&&◌, ◌||◌, [], ◌∷◌, Option, none, some, Bytes, leb, ◌==◌,
  ◌=?◌, if◌then◌else◌,
}
use gmake.Text.{is_blank, next_token, token, end_of_token}

-- the four directives that open a conditional
pub data Opening : Type 0 where
  c_ifdef c_ifndef c_ifeq c_ifneq : Opening

-- `*line`: 0 at the end
unfoldable pub at : Bytes → ℕ
at [] = 0
at (c ∷ s) = c

-- `++line`
unfoldable pub advance : Bytes → Bytes
advance [] = []
advance (c ∷ s) = s

-- Up to the first comma that stands outside parentheses: the bytes before it, and the rest from it
-- on. `count` is the number of '(' less that of ')', and may fall below 0: the two are kept apart.
unfoldable pub to_comma : ℕ → ℕ → Bytes → Bytes × Bytes
to_comma opened closed [] = ([], [])
to_comma opened closed (c ∷ s) =
    let rest =
      to_comma (if c == b'(' then opened + 1 else opened) (if c == b')' then closed + 1 else closed)
        s in
    if c == b',' && leb opened closed then ([], c ∷ s) else (c ∷ rest.0, rest.1)

-- up to the first ')' outside inner parentheses
unfoldable pub to_close : ℕ → Bytes → Bytes × Bytes
to_close count [] = ([], [])
to_close count (c ∷ s) =
    let rest =
      to_close (if c == b'(' then count + 1 else if c == b')' then count - 1 else count) s in
    if c == b')' && count == 0 then ([], c ∷ s) else (c ∷ rest.0, rest.1)

-- up to the first byte `termin`
unfoldable pub to_byte : ℕ → Bytes → Bytes × Bytes
to_byte termin [] = ([], [])
to_byte termin (c ∷ s) =
    let rest = to_byte termin s in if c == termin then ([], c ∷ s) else (c ∷ rest.0, rest.1)

-- `while (ISBLANK (p[-1])) --p;` down to the parenthesis in front of the string
strip_blanks : Bytes → Bytes
strip_blanks [] = []
strip_blanks (c ∷ s) = elim (strip_blanks s) [
  | [] ↦ if is_blank c then [] else c ∷ []
  | d ∷ r ↦ c ∷ d ∷ r
]

is_quote : ℕ → Bool
is_quote c = c == b'"' || c == b'\''

-- the first operand and the rest of the line; `none` for the return of -1
unfoldable pub first_operand : Bytes → Option (ℕ × Bytes × Bytes)
unfolding at advance to_comma to_byte strip_blanks is_quote
first_operand line =
    let termin = if at line == b'(' then b',' else at line in
    let (s1, rest) =
      if termin == b',' then to_comma 0 0 (advance line) else to_byte termin (advance line) in
    if not (termin == b',' || is_quote termin)
    then none
    else if at rest == 0
    then none
    else some (termin, (if termin == b',' then strip_blanks s1 else s1), advance rest)

-- the second operand and what follows it
unfoldable pub second_operand : ℕ → Bytes → Option (Bytes × Bytes)
unfolding at advance to_close to_byte is_quote
second_operand termin line =
    let line' = if termin == b',' then line else next_token line in
    let termin' = if termin == b',' then b')' else at line' in
    let (s2, rest) =
      if termin' == b')' then to_close 0 (next_token line') else to_byte termin' (advance line') in
    if not (termin' == b')' || is_quote termin')
    then none
    else if at rest == 0
    then none
    else some (s2, next_token (advance rest))

is_negated : Opening → Bool
is_negated c_ifdef = false
is_negated c_ifndef = true
is_negated c_ifeq = false
is_negated c_ifneq = true

beq : Bool → Bool → Bool
beq true b = b
beq false b = not b

-- the test's outcome: the new `ignoring`, and whether EXTRATEXT complains; `none` for -1
abbrev pub Outcome : Type 0
Outcome = Option (Bool × Bool)

module _ (expand : Bytes → Bytes) (lookup_variable : Bytes → Option Bytes) where
  is_defined : Bytes → Bool
  is_defined name = elim (lookup_variable name) [ none ↦ false | some v ↦ not (v =? []) ]

  unfoldable pub test_defined : Opening → Bytes → Outcome
  unfolding at is_defined is_negated beq
  test_defined cmdtype line =
      let var = expand line in
      if not (at (next_token (end_of_token var)) == 0)
      then none
      else some (beq (is_defined (token var)) (is_negated cmdtype), false)

  test_second : Opening → Bytes → Option (Bytes × Bytes) → Outcome
  unfolding at is_negated beq
  test_second cmdtype s1 none = none
  test_second cmdtype s1 (some (s2, rest)) =
      some (beq (expand s1 =? expand s2) (is_negated cmdtype), not (at rest == 0))

  test_first : Opening → Option (ℕ × Bytes × Bytes) → Outcome
  unfolding test_second second_operand
  test_first cmdtype none = none
  test_first cmdtype (some (termin, s1, rest)) = test_second cmdtype s1 (second_operand termin rest)

  unfoldable pub test_equal : Opening → Bytes → Outcome
  unfolding test_first first_operand
  test_equal cmdtype line = test_first cmdtype (first_operand line)

  unfoldable pub test_condition : Opening → Bytes → Outcome
  unfolding test_defined test_equal
  test_condition c_ifdef line = test_defined c_ifdef line
  test_condition c_ifndef line = test_defined c_ifndef line
  test_condition c_ifeq line = test_equal c_ifeq line
  test_condition c_ifneq line = test_equal c_ifneq line
