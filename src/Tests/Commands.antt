-- ===== src/Tests/Commands.antt =====
-- Recipes cut up into lines.
use gmake.Commands.{Commands, chops, fatal, line_flags, with_lines, chop_commands, is_found}
use gmake.Commands.Flags.{among, line_flags-prefix}
use gmake.Commands.Joined.{IsLine, chop_commands-joined}
use gmake.Commands.Lines.{cut, with_newlines, chop_commands-cut}
use gmake.Prelude.{
  ◌≡◌, ◌⊎◌, refl, true, false, ◌||◌, List, [], ◌∷◌, ◌++◌, none, some, Bytes, codes, arith, length,
  leb, ltb, count, All, if◌then◌else◌,
}
use gmake.Text.{is_blank}
use gmake.Words.{strstr}

-- a line that goes on behind a newline, and one that ends with two backslashes
abbrev recipe_text : Bytes
recipe_text = codes "@echo a \\" ++ (10 ∷ codes "b\\\\" ++ (10 ∷ codes "+-$(MAKE) c"))

abbrev recipe : Commands
recipe = record {
  fileinfo = record { filenm = none; lineno = 0; offset = 0 };
  commands = recipe_text;
  command_lines = none;
  lines_flags = [];
  recipe_prefix = 9;
  any_recurse = false;
}

cut_run :
    cut false recipe_text ≡ (codes "@echo a \\" ++ (10 ∷ codes "b\\\\")) ∷ codes "+-$(MAKE) c" ∷ []
unfolding cut
cut_run = refl

chop_run :
    chop_commands false recipe
    ≡ chops (record recipe {
      command_lines =
          some ((codes "@echo a \\" ++ (10 ∷ codes "b\\\\")) ∷ codes "+-$(MAKE) c" ∷ []);
      lines_flags =
          record { recurse = false; silent = true; noerror = false }
          ∷ record { recurse = true; silent = false; noerror = true }
          ∷ [];
      any_recurse = true;
    })
unfolding chop_commands strstr is_blank
chop_run = refl

chop_commands-cut_example : chop_commands false recipe ≡ (
    if leb (length (cut false recipe_text)) 65535
    then chops (with_lines recipe (cut false recipe_text))
    else fatal)
chop_commands-cut_example = chop_commands-cut recipe refl

chop_commands-joined_example :
    (lines : List Bytes) × (chop_commands false recipe ≡ chops (with_lines recipe lines))
    × ((with_newlines lines ≡ recipe_text) ⊎ (with_newlines lines ≡ recipe_text ++ (10 ∷ [])))
    × All (IsLine false) lines
chop_commands-joined_example = chop_commands-joined recipe refl (unfold cut in omega arith)

line_flags-prefix_example :
    (line_flags (codes "+ -" ++ codes "rm x") ≡ record {
      recurse =
          among b'+' (codes "+ -")
          || (is_found (strstr (codes "rm x") (codes "$(MAKE)"))
              || is_found (strstr (codes "rm x") (codes "${MAKE}")));
      silent = among b'@' (codes "+ -");
      noerror = among b'-' (codes "+ -");
    })
    × ((with_lines recipe (codes "@rm x" ∷ [])).any_recurse
        ≡ ltb 0 (count (λ l. (line_flags l).recurse) (codes "@rm x" ∷ [])))
line_flags-prefix_example =
    line_flags-prefix recipe (codes "+ -") (codes "rm x") (codes "@rm x" ∷ [])
      (unfold among in (refl, (refl, (refl, tt)))) (unfold among in refl)
