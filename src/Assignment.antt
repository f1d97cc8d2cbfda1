-- ===== src/Assignment.antt =====
-- parse_variable_definition of make-4.4/src/variable.c: is a line an assignment, and of what flavor. A place in the line
-- is the rest of the line; `p - 1` is the place of the byte that was read last.
pub mod Forms
pub mod Lines
pub mod Ends
use gmake.Prelude.{
  ℕ, zero, suc, ◌+◌, ◌-◌, Bool, true, false, not, ◌&&◌, ◌||◌, [], ◌∷◌, Option, none, some, Bytes,
  ◌==◌, if◌then◌else◌, length, drop,
}
use gmake.Text.{is_blank, next_token}
use gmake.Variables.{
  VariableFlavor, f_simple, f_recursive, f_expand, f_append, f_conditional, f_shell,
}

-- a null pointer; or the name's length, the flavor and the place behind the operator. `unfinished` is a loop that is
-- still going when its rounds are used up.
pub data Parsed : Type 0 where
  unfinished no_definition : Parsed
  definition : ℕ → VariableFlavor → Bytes → Parsed

-- what a round of the loop ends with: a result, or the places `p` and `end` for the next round
pub data Round : Type 0 where
  returns : Parsed → Round
  goes_on : Bytes → Option ℕ → Round

-- `end` where it is set, or else the place of the byte read last
abbrev pub end_or : Option ℕ → ℕ → ℕ
end_or none here = here
end_or (some end) here = end

-- `*p == c`; the NUL is at the end
abbrev pub at_byte : ℕ → Bytes → Bool
at_byte c [] = false
at_byte c (x ∷ s) = x == c

-- behind a colon: `=`, `:=` or `::=`
unfoldable pub colon_operator : Bytes → ℕ → Parsed
colon_operator s end =
    if at_byte b'=' s
    then definition end f_simple (drop 1 s)
    else if not (at_byte b':' s)
    then no_definition
    else if at_byte b'=' (drop 1 s)
    then definition end f_simple (drop 2 s)
    else if at_byte b':' (drop 1 s) && at_byte b'=' (drop 2 s)
    then definition end f_expand (drop 3 s)
    else no_definition

-- the flavor of an operator of two bytes by its first byte
unfoldable pub two_byte_flavor : ℕ → Option VariableFlavor
two_byte_flavor c =
    if c == b'+'
    then some f_append
    else if c == b'?'
    then some f_conditional
    else if c == b'!'
    then some f_shell
    else none

-- to the place behind the closing paren or brace, or to the end
unfoldable pub skip_nested : ℕ → ℕ → ℕ → Bytes → Bytes
skip_nested opener closer count [] = []
skip_nested opener closer count (x ∷ s) =
    let next = if x == closer then count - 1 else if x == opener then count + 1 else count in
    let rest = skip_nested opener closer next s in if next == 0 then s else rest

-- behind a `$`
unfoldable pub skip_dollar : Bytes → Round
unfolding skip_nested
skip_dollar [] = returns no_definition
skip_dollar (c ∷ s) =
    if c == b'('
    then goes_on (skip_nested b'(' b')' 1 s) none
    else if c == b'{'
    then goes_on (skip_nested b'{' b'}' 1 s) none
    else goes_on s none

-- at the label `other`: a byte of no operator
unfoldable pub other_byte : ℕ → Bytes → Option ℕ → Round
unfolding skip_dollar
other_byte c s (some end) = returns no_definition
other_byte c s none = if c == b'$' then skip_dollar s else goes_on s none

unfoldable pub two_bytes : Option VariableFlavor → ℕ → Bytes → ℕ → Option ℕ → Round
unfolding other_byte
two_bytes none c s here end = other_byte c s end
two_bytes (some flavor) c s here end = returns (definition (end_or end here) flavor (drop 1 s))

-- a blank: the first ends the name
abbrev pub at_blank : Bytes → ℕ → Option ℕ → Round
at_blank s here (some end) = returns no_definition
at_blank s here none = goes_on (next_token s) (some here)

-- a round, from the byte `c` at the place `here`, with `p` behind it
unfoldable pub definition_step : ℕ → Bytes → ℕ → Option ℕ → Round
unfolding is_blank next_token colon_operator two_byte_flavor two_bytes other_byte
definition_step c s here end =
    if c == b'#' || c == 0
    then returns no_definition
    else if is_blank c
    then at_blank s here end
    else if c == b'='
    then returns (definition (end_or end here) f_recursive s)
    else if c == b':'
    then returns (colon_operator s (end_or end here))
    else if at_byte b'=' s
    then two_bytes (two_byte_flavor c) c s here end
    else other_byte c s end

-- the loop, with the name's place `name`
unfoldable pub parse_from : ℕ → Bytes → Bytes → Option ℕ → Parsed
unfolding definition_step
parse_from zero name p end = unfinished
parse_from (suc fuel) name [] end = no_definition
parse_from (suc fuel) name (c ∷ s) end =
    elim (definition_step c s (length name - suc (length s)) end) [
      | returns r ↦ r
      | goes_on next later ↦ parse_from fuel name next later
    ]

-- A round uses up a byte, so one more round than bytes is enough.
unfoldable pub parse_variable_definition : Bytes → Parsed
unfolding next_token parse_from
parse_variable_definition str =
    let name = next_token str in parse_from (suc (length name)) name name none
