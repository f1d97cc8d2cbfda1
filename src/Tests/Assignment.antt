-- ===== src/Tests/Assignment.antt =====
-- Lines that are assignments, and lines that are not.
use gmake.Assignment.{no_definition, definition, parse_variable_definition}
use gmake.Assignment.Forms.{
  plus, operator_flavor, is_plain, IsName, end_name, plain, parens, byte, group, none_open,
}
use gmake.Assignment.Lines.{parse_variable_definition-assignment}
use gmake.Assignment.Ends.{EndsWithin, parse_variable_definition-EndsWithin}
use gmake.Prelude.{◌≡◌, ◌≢◌, refl, [], ◌++◌, Bytes, codes, length}
use gmake.Text.{is_space, is_blank}
use gmake.Variables.{f_simple, f_expand}

simple_run : parse_variable_definition (codes "  CC := gcc") ≡ definition 2 f_simple (codes " gcc")
unfolding parse_variable_definition is_space
simple_run = refl

rule_run : parse_variable_definition (codes "all: main.o") ≡ no_definition
unfolding parse_variable_definition is_space
rule_run = refl

abbrev line : Bytes
line = codes "A$(b:(=)):::= x"

line_run : parse_variable_definition line ≡ definition 9 f_expand (codes " x")
unfolding parse_variable_definition is_space
line_run = refl

parse_variable_definition-EndsWithin_example :
    EndsWithin (length line) (parse_variable_definition line)
parse_variable_definition-EndsWithin_example = parse_variable_definition-EndsWithin line

-- `A$(b(=))`
abbrev name : Bytes
name = codes "A$(b(=))"

name-IsName : IsName name
unfolding is_plain is_space is_blank
name-IsName =
    plain {c = b'A'} refl
      (parens (byte refl refl (group (byte refl refl none_open) none_open)) end_name)

name_filled : name ≢ []
name_filled e = cc

parse_variable_definition-assignment_example :
    parse_variable_definition (codes " " ++ (name ++ (codes "  " ++ (codes "+=" ++ codes " x"))))
    ≡ definition 8 (operator_flavor plus) (codes " x")
unfolding is_space is_blank
parse_variable_definition-assignment_example =
    parse_variable_definition-assignment (codes " ") name (codes "  ") (codes " x") plus (refl, tt)
      name-IsName name_filled (refl, (refl, tt))
