-- ===== src/Tests/Continuations.antt =====
-- Lines with backslashes in front of their newlines.
use gmake.Continuations.{collapse_continuations}
use gmake.Continuations.Doubled.{double_runs, collapse_continuations-double_runs}
use gmake.Pattern.{backslashes}
use gmake.Prelude.{◌≡◌, refl, true, false, ◌∷◌, ◌++◌, some, Bytes, codes}
use gmake.Text.{is_blank}

-- one quoted newline, one behind a backslash that is quoted, and one that is not quoted
abbrev lines : Bytes
lines = codes "a  \\" ++ (10 ∷ codes "  b\\\\" ++ (10 ∷ codes "c" ++ (10 ∷ codes "\\")))

collapse_run :
    collapse_continuations false lines
    ≡ some (codes "a b\\" ++ (10 ∷ codes "c" ++ (10 ∷ codes "\\")))
unfolding collapse_continuations is_blank backslashes
collapse_run = refl

posix_run :
    collapse_continuations true lines
    ≡ some (codes "a   b\\" ++ (10 ∷ codes "c" ++ (10 ∷ codes "\\")))
unfolding collapse_continuations is_blank backslashes
posix_run = refl

collapse_continuations-double_runs_example :
    (collapse_continuations false (double_runs 0 lines) ≡ some lines)
    × (r : Bytes) × (collapse_continuations false lines ≡ some r)
collapse_continuations-double_runs_example = collapse_continuations-double_runs false lines
