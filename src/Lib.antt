-- ===== src/Lib.antt =====
-- GNU Make 4.4 (the C program under make-4.4/src).
--
-- The program reads makefiles line by line (read.c), expands variable references and function calls in
-- them (expand.c, function.c), and then decides what to remake (remake.c, implicit.c) and runs the
-- commands for it (job.c, commands.c). The files here model the part that reads: the scan of a text for
-- words, the conditional directives, the variables with their assignments and expansions, the functions of
-- makefiles that compute on texts, and the lines of recipes; and the hash tables and the cache of strings
-- that the other parts stand on.
--
-- A C string is the list of its bytes (`Bytes`), the end of the list for the NUL; a `char *` into it is
-- the rest of the list, and `o` in the variable buffer is the list of the bytes in front of it. The
-- builds with VMS, DOS paths or Amiga file names are not modelled: the code that only they compile is
-- left out.
--
-- Files and code:
--  Prelude (Prelude/Tests, Prelude/Lists): names and list lemmas that all files share.
--  Text: next_token, end_of_token, find_next_token and lindex of make-4.4/src/misc.c, with the character
--    classes of make-4.4/src/main.c and makeint.h. The loop over find_next_token runs on fuel, one more
--    round than the text has bytes: a round uses up a byte. Text/Tokens is about the words found. Text/Output: the
--    variable buffer (variable_buffer_output of make-4.4/src/expand.c) and the idiom by which each list
--    function puts words out and takes the last blank back.
--  Words (Words/Affix, Words/Names, Words/Single): addprefix, addsuffix, join, dir, notdir, suffix,
--    basename, strip, firstword, lastword, words and findstring of make-4.4/src/function.c.
--  Integers (Integers/Order, Integers/Select): parse_textint and func_intcmp of function.c.
--  Logic (Logic/Order): strip_whitespace, func_if, func_or and func_and of function.c. The expansion of an
--    argument is a parameter that acts on a state, so that the order of expansions and those left out
--    can be stated.
--  Pattern (Pattern/Quotes, Pattern/Match, Pattern/Subst, Pattern/Parts, Pattern/Words): find_char_unquote and
--    find_percent of make-4.4/src/read.c; pattern_matches, subst_expand, patsubst_expand_pat and
--    patsubst_expand of function.c. A pattern that find_percent has been through is the pair of the text
--    in front of the `%` and the text behind it. The loop of subst_expand runs on fuel, one more round
--    than the text has bytes; every round but the last uses up a byte.
--  Numbered: parse_numeric and func_word of function.c, with strtoll of the C library as a parameter.
--  Escapes: unescape_char of read.c. Arguments: find_next_argument of function.c.
--  Condition: the condition of an ifdef, ifndef, ifeq or ifneq line in conditional_line of read.c.
--    variable_expand and lookup_variable are parameters.
--  Conditional: the rest of conditional_line: the stack of open conditionals (struct conditionals) and
--    each directive. The bytes of the arrays and the numbers of levels are natural numbers: fresh memory, a
--    parameter, is taken to hold no negative byte, and fewer than 2 ^ 32 levels are open. Frames is the stack as a list of levels;
--    Safety is about the arrays, Chain and Branches about ifdef and endif lines, Else and Once about else
--    lines.
--  Mword (Mword/Loop, Mword/Progress): get_next_mword of read.c. The scan of a word runs on fuel, one more
--    round than there are bytes: a round uses up a byte. The byte behind the NUL, which is looked at
--    behind a double colon, is a parameter.
--  Shuffle (Shuffle/Arrays, Shuffle/Count, Shuffle/Deps): the arrays of make-4.4/src/shuffle.c and
--    shuffle_deps; make_rand of make-4.4/src/misc.c, in which the clock and the process number are a
--    parameter.
--  Hash (Hash/Cycle and its siblings): the tables of make-4.4/src/hash.c, for any hash functions and
--    comparison. A slot is null, the mark of a deleted item, or an item; a `void **` into the vector is an
--    index. The probe loop runs on as many rounds as there are slots, and `none` stands for one that goes
--    on for ever; Cycle and Probe say when it ends. Valid is the invariant of a table, Holds what a look-up
--    is to return by the contents. The counters of hash_print_stats are left out.
--  Jhash: jhash and jhash_string of hash.c, for a machine that keeps the low byte of a number first.
--  Variables (Variables/Define, Variables/Undefine, Variables/Merge, Variables/Merged): define_variable_in_set,
--    undefine_variable_in_set, merge_variable_sets and lookup_variable_in_set of make-4.4/src/variable.c, on the tables
--    of Hash with the hash functions of variables. A `struct variable *` in a table is the variable itself.
--  Scopes (Scopes/Search, Scopes/Nested): the list of sets of lookup_variable and .VARIABLES, and
--    push_new_variable_scope and pop_variable_scope. The list from global_setlist on is kept apart from
--    what stands in front of it, since the lists of files lead there too.
--  Assignment (Assignment/Forms, Assignment/Lines, Assignment/Ends): parse_variable_definition of variable.c. The loop runs on
--    fuel, one more round than the line has bytes; a round uses up a byte.
--  Flavors (Flavors/Append): the value that do_variable_definition of variable.c makes by the flavor of the
--    assignment. allocated_variable_expand and shell_result are parameters that act on a state, in which the
--    value of the variable is read where the code reads it, behind the expansion; the variable that the look-up
--    returns is an argument.
--  Expand (Expand/Outcome, Expand/Loop and their siblings): variable_expand_string, reference_variable and
--    recursively_expand_for_file of make-4.4/src/expand.c, and handle_function of
--    make-4.4/src/function.c up to its look-up of the name in function_table. What a function that is found does,
--    and allocated_variable_append, are parameters with any outcome: they may change the variables, end make, or
--    not return. So are the environment and env_recursion. The variables are a list in the order of the
--    look-up, whose flags change in place. The loop and the expansions inside it run on one fuel: the bytes
--    of the text, and as many rounds as the longest value has bytes, and one more, for each time that a
--    variable can be entered; one more than that is enough. Expand/Dollars: `$$`.
--  Strcache (Strcache/Kept and its siblings): make-4.4/src/strcache.c on the tables of Hash. The blocks stand in
--    a heap in the order of their allocation, the two lists hold their places, and a key in the table is a
--    pointer with the string that stands there. A write past the end of a buffer gives no result. Kept is the
--    invariant. What fresh memory holds is a parameter.
--  Commands (Commands/Lines, Commands/Joined, Commands/Flags): chop_commands of make-4.4/src/commands.c. The
--    loop over the recipe runs on fuel, one more round than the recipe has bytes: a round uses up a byte.
--  Continuations (Continuations/Doubled): collapse_continuations of make-4.4/src/misc.c. The loop runs on fuel,
--    one more round than the text has bytes: a round uses up a byte.
--  Tests: the models at concrete inputs.
--
-- A call of `fatal`, which ends make, is a value of a result type; a call of `error`, which goes on, is
-- counted.
--
-- Not modelled: the functions of make-4.4/src/function.c that run programs, look at files or define
-- variables; filter, sort and wordlist; the printing of statistics in hash.c and
-- strcache.c; the rest of read.c, shuffle.c and misc.c; the rest of expand.c (variable_append, and the
-- buffers of calls inside calls), variable.c but for the sets, the scopes, parse_variable_definition
-- and the value by flavor, implicit.c, rule.c, remake.c, file.c, job.c, the rest of commands.c, dir.c, vpath.c,
-- output.c, ar.c, arscan.c, and main.c but for its character classes: they are work to come, or
-- calls of the system. The ports to other systems and the library under make-4.4/lib are other projects'
-- code or not compiled here, and the program in Go under cmd and pkg is another program. The memory that
-- texts live in is not modelled but for the arrays of conditionals and the cache of strings: a text is a value, and allocation does
-- not fail.
pub mod Prelude
pub mod Text
pub mod Arguments
pub mod Assignment
pub mod Commands
pub mod Condition
pub mod Conditional
pub mod Continuations
pub mod Escapes
pub mod Expand
pub mod Flavors
pub mod Hash
pub mod Integers
pub mod Jhash
pub mod Logic
pub mod Mword
pub mod Numbered
pub mod Pattern
pub mod Scopes
pub mod Shuffle
pub mod Strcache
pub mod Variables
pub mod Words
pub mod Tests
