-- ===== src/Continuations.antt =====
-- collapse_continuations of make-4.4/src/misc.c. The line is rewritten in place; the text that is written never catches
-- up with what is still to be read, and the run of backslashes in front of a newline ends at the newline before it.
pub mod Doubled
use gmake.Condition.{to_byte}
use gmake.Pattern.{backslashes}
use gmake.Prelude.{
  ℕ, zero, suc, ◌+◌, ◌*◌, ◌/◌, ◌%◌, ◌≤◌, ◌<◌, ◌≡◌, refl, ◌∙◌, ap, sym, ◌⊎◌, inl, inr, All,
  All-append, length-append, Bool, true, false, not, ◌&&◌, List, [], ◌∷◌, ◌++◌, append_assoc,
  append-nil, Option, none, some, Bytes, ◌==◌, if◌then◌else◌, arith, length, Bool-cases,
}
use gmake.Text.{is_blank}

-- a byte in front of such a text
abbrev pub push : ℕ → Bytes × ℕ → Bytes × ℕ
push c ([], k) = if c == b'\\' then ([], suc k) else (c ∷ [], k)
push c (d ∷ body, k) = (c ∷ d ∷ body, k)

-- the text in front of the backslashes that it ends with, and their number
unfoldable pub strip_run : Bytes → Bytes × ℕ
strip_run [] = ([], 0)
strip_run (c ∷ s) = push c (strip_run s)

-- `while (out > line && ISBLANK (out[-1])) --out`
unfoldable pub drop_blanks : Bytes → Bytes
unfolding is_blank
drop_blanks [] = []
drop_blanks (c ∷ s) =
    let rest = drop_blanks s in
    elim rest [ [] ↦ if is_blank c then [] else c ∷ [] | d ∷ more ↦ c ∷ d ∷ more ]

-- `while (ISBLANK (*in)) ++in`
unfoldable pub skip_blanks : Bytes → Bytes
unfolding is_blank
skip_blanks [] = []
skip_blanks (c ∷ s) = let rest = skip_blanks s in if is_blank c then rest else c ∷ s

-- what stands in `out` behind the text in front of a newline, with the newline or the blank for it
unfoldable pub put_line : Bool → Bytes → Bytes × ℕ → Bytes
unfolding drop_blanks backslashes
put_line posix_pedantic out (body, k) =
    let kept = out ++ (body ++ backslashes (k / 2)) in
    if k % 2 == 1
    then (if posix_pedantic then kept else drop_blanks kept) ++ (32 ∷ [])
    else kept ++ (10 ∷ [])

-- where the scan goes on behind a newline
unfoldable pub behind_line : Bytes × ℕ → Bytes → Bytes
unfolding skip_blanks
behind_line (body, k) next = if k % 2 == 1 then skip_blanks next else next

-- a round, from the text up to a newline or the end and what stands there; `again` is the rest of the loop
unfoldable pub collapse_line :
    (Bytes → Bytes → Option Bytes) → Bool → Bytes → Bytes × Bytes → Option Bytes
unfolding strip_run put_line behind_line
collapse_line again posix_pedantic out (line, []) = some (out ++ line)
collapse_line again posix_pedantic out (line, newline ∷ next) =
    again (put_line posix_pedantic out (strip_run line)) (behind_line (strip_run line) next)

-- the loop, on fuel, with the text in `out`; `none` for one that is still going
unfoldable pub collapse_from : ℕ → Bool → Bytes → Bytes → Option Bytes
unfolding to_byte collapse_line
collapse_from zero posix_pedantic out in_text = none
collapse_from (suc fuel) posix_pedantic out in_text =
    collapse_line (collapse_from fuel posix_pedantic) posix_pedantic out (to_byte 10 in_text)

-- A round uses up a byte.
unfoldable pub collapse_continuations : Bool → Bytes → Option Bytes
unfolding collapse_from
collapse_continuations posix_pedantic line =
    collapse_from (suc (length line)) posix_pedantic [] line
