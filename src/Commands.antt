-- ===== src/Commands.antt =====
-- chop_commands of make-4.4/src/commands.c: a recipe cut up into its lines, and the flags of each line.
pub mod Lines
pub mod Joined
pub mod Flags
use gmake.Condition.{advance}
use gmake.Prelude.{
  ℕ, zero, suc, ◌+◌, Bool, true, false, not, ◌&&◌, ◌||◌, List, [], ◌∷◌, map, Option, none, some,
  Bytes, ◌==◌, if◌then◌else◌, codes, length,
}
use gmake.Text.{is_blank}
use gmake.Variables.{Floc}
use gmake.Words.{strstr}

-- the bits of `lines_flags`: COMMANDS_RECURSE, COMMANDS_SILENT and COMMANDS_NOERROR
pub record LineFlags : Type 0 where
  pub recurse : Bool
  pub silent : Bool
  pub noerror : Bool

-- struct commands; `ncommand_lines` is the length of the two lists
pub record Commands : Type 0 where
  pub fileinfo : Floc
  pub commands : Bytes
  pub command_lines : Option (List Bytes)
  pub lines_flags : List LineFlags
  pub recipe_prefix : ℕ
  pub any_recurse : Bool

-- what the loop over the recipe gives: the lines, or a call of fatal; `unfinished` is a loop that is still going
pub data Chopping : Type 0 where
  unfinished too_many : Chopping
  chopped : List Bytes → Chopping

-- the loop over the backslashes, on the bytes of the line from the last to the first
unfoldable pub flipped : Bool → Bytes → Bool
flipped backslash [] = backslash
flipped backslash (c ∷ back) =
    let further = flipped (not backslash) back in if c == b'\\' then further else backslash

-- whether a newline behind these bytes of the line is part of it
unfoldable pub continues : Bytes → Bool
unfolding flipped
continues [] = false
continues (c ∷ back) = if c == b'\\' then flipped true back else false

-- the search of the end of a line: the rest of the line, and what stands there
unfoldable pub find_end : Bytes → Bytes → Bytes × Bytes
unfolding continues
find_end back [] = ([], [])
find_end back (c ∷ s) =
    let (line, end) = find_end (c ∷ back) s in
    if c == 10 && not (continues back) then ([], c ∷ s) else (c ∷ line, end)

abbrev pub with_line : Bytes → Chopping → Chopping
with_line line unfinished = unfinished
with_line line too_many = too_many
with_line line (chopped lines) = chopped (line ∷ lines)

-- the loop, on fuel, with the number of lines so far
unfoldable pub chop_from : ℕ → ℕ → Bytes → Chopping
unfolding find_end advance
chop_from zero nlines p = unfinished
chop_from (suc fuel) nlines [] = chopped []
chop_from (suc fuel) nlines (c ∷ s) =
    let (line, end) = find_end [] (c ∷ s) in
    let more = chop_from fuel (nlines + 1) (advance end) in
    if nlines == 65535 then too_many else with_line line more

-- the one line of a recipe for one shell, less the newline at its end
unfoldable pub strip_newline : Bytes → Bytes
strip_newline [] = []
strip_newline (c ∷ []) = if c == 10 then [] else c ∷ []
strip_newline (c ∷ d ∷ s) = c ∷ strip_newline (d ∷ s)

abbrev pub no_flags : LineFlags
no_flags = record { recurse = false; silent = false; noerror = false }

-- the switch
unfoldable pub flagged : LineFlags → ℕ → LineFlags
flagged flags c =
    if c == b'+'
    then record flags { recurse = true }
    else if c == b'@'
    then record flags { silent = true }
    else if c == b'-'
    then record flags { noerror = true }
    else flags

unfoldable pub is_prefix : ℕ → Bool
unfolding is_blank
is_prefix c = is_blank c || (c == b'-' || (c == b'@' || c == b'+'))

-- the loop over the bytes in front of a line: its flags, and the rest
unfoldable pub prefix_flags : LineFlags → Bytes → LineFlags × Bytes
unfolding flagged is_prefix
prefix_flags flags [] = (flags, [])
prefix_flags flags (c ∷ p) =
    let further = prefix_flags (flagged flags c) p in
    if is_prefix c then further else (flags, c ∷ p)

abbrev pub is_found : Option Bytes → Bool
is_found none = false
is_found (some at) = true

unfoldable pub line_flags : Bytes → LineFlags
unfolding prefix_flags strstr
line_flags line =
    let (flags, p) = prefix_flags no_flags line in
    record flags {
      recurse =
          flags.recurse
          || (is_found (strstr p (codes "$(MAKE)")) || is_found (strstr p (codes "${MAKE}")));
    }

-- `cmds->any_recurse |= ...`
unfoldable pub any_flagged : List LineFlags → Bool
any_flagged [] = false
any_flagged (flags ∷ rest) = let more = any_flagged rest in flags.recurse || more

-- behind the loop
unfoldable pub with_lines : Commands → List Bytes → Commands
unfolding line_flags any_flagged
with_lines cmds lines = record cmds {
  command_lines = some lines;
  lines_flags = map line_flags lines;
  any_recurse = any_flagged (map line_flags lines);
}

-- what chop_commands makes of a recipe; the other outcomes are those of the loop
pub data Chops : Type 0 where
  stuck fatal : Chops
  chops : Commands → Chops

abbrev pub after_loop : Commands → Chopping → Chops
unfolding with_lines
after_loop cmds unfinished = stuck
after_loop cmds too_many = fatal
after_loop cmds (chopped lines) = chops (with_lines cmds lines)

unfoldable pub chop_commands : Bool → Commands → Chops
unfolding chop_from strip_newline with_lines
chop_commands one_shell cmds = elim cmds.command_lines [
  | some lines ↦ chops cmds
  | none ↦
      if one_shell
      then chops (with_lines cmds (strip_newline cmds.commands ∷ []))
      else after_loop cmds (chop_from (suc (length cmds.commands)) 0 cmds.commands)
]
