-- ===== src/Tests/Conditional.antt =====
-- The conditional directives of make-4.4/src/read.c at concrete lines.
use gmake.Condition.{c_ifdef, c_ifeq, at, test_condition}
use gmake.Conditional.{
  Conditionals, opening, flip, else_at, else_word, directive, endif_line, open_line,
  conditional_line, extraneous_endif, returns, interpret, ignore,
}
use gmake.Conditional.Branches.{Inside, endif_line-view}
use gmake.Conditional.Chain.{ends, view, settle, frame, opened, open_line-opened}
use gmake.Conditional.Else.{else_at-view}
use gmake.Conditional.Frames.{frames, blocked, below}
use gmake.Conditional.Once.{StaysIgnored, else_at_spent, else_at_leaks}
use gmake.Conditional.Safety.{IsValid, Keeps, conditional_line-IsValid}
use gmake.Prelude.{
  ℕ, ◌≡◌, ◌∙◌, refl, Bytes, [], ◌∷◌, Option, none, some, codes, length, drop, arith, false, ltb,
  ◌==◌, if◌then◌else◌,
}
use gmake.Text.{end_of_token, is_space, next_token, token}

abbrev garbage : ℕ → ℕ
garbage _ = 7

abbrev expand : Bytes → Bytes
expand s = s

abbrev lookup_variable : Bytes → Option Bytes
lookup_variable name = if length name == 1 then some (codes "yes") else none

-- no conditional is open, and nothing is allocated
abbrev at_start : Conditionals
at_start = record { if_cmds = 0; allocated = 0; ignoring = []; seen_else = [] }

abbrev one_open : ℕ → Conditionals
one_open i = record {
  if_cmds = 1;
  allocated = 5;
  ignoring = i ∷ 7 ∷ 7 ∷ 7 ∷ 7 ∷ [];
  seen_else = 0 ∷ 7 ∷ 7 ∷ 7 ∷ 7 ∷ [];
}

at_start-IsValid : IsValid at_start
at_start-IsValid = record { ignoring = refl; seen_else = refl; within = omega arith }

one_open-Inside : (i : ℕ) → Inside (one_open i) 0 (frame i 0) []
unfolding below
one_open-Inside i = record {
  valid = record { ignoring = refl; seen_else = refl; within = omega arith };
  depth = refl;
  top = (refl, refl);
  rest = refl;
}

ifeq_runs :
    conditional_line garbage expand lookup_variable at_start (codes "ifeq (a,b)") 4
    ≡ returns ignore (one_open 1) 0
unfolding conditional_line next_token is_space
ifeq_runs = refl

else_ifdef_runs :
    conditional_line garbage expand lookup_variable (one_open 1) (codes "else ifdef x") 4
    ≡ returns interpret
        (record (one_open 0) {
          ignoring = 0 ∷ 0 ∷ 7 ∷ 7 ∷ 7 ∷ [];
          seen_else = 0 ∷ 0 ∷ 7 ∷ 7 ∷ 7 ∷ [];
        })
        0
unfolding conditional_line next_token is_space token end_of_token
else_ifdef_runs = refl

conditional_line-IsValid_example :
    Keeps IsValid (conditional_line garbage expand lookup_variable at_start (codes "ifeq (a,b)") 4)
conditional_line-IsValid_example =
    conditional_line-IsValid garbage expand lookup_variable (codes "ifeq (a,b)") 4 at_start-IsValid

open_line-opened_example :
    view (open_line garbage expand lookup_variable c_ifeq at_start (codes "(a,a)"))
    ≡ opened garbage expand lookup_variable
        (frames at_start)
        (test_condition expand lookup_variable c_ifeq (codes "(a,a)"))
open_line-opened_example =
    open_line-opened garbage expand lookup_variable at_start-IsValid c_ifeq (codes "(a,a)")

endif_line-view_example : view (endif_line (one_open 1) (codes "x")) ≡ elim (frames (one_open 1)) [
  | [] ↦ ends extraneous_endif
  | f ∷ fs ↦ settle fs (if at (codes "x") == 0 then 0 else 1)
]
endif_line-view_example = endif_line-view (one_open 1) (codes "x")

else_at-view_example :
    view (else_at garbage expand lookup_variable (one_open 1) (codes "x") 1)
    ≡ settle (frame 0 0 ∷ []) 1
else_at-view_example =
    else_at-view garbage expand lookup_variable (one_open-Inside 1) (codes "x")
    ∙ unfold at flip else_word directive in refl

else_at_spent_example :
    StaysIgnored
      (flip 0)
      []
      (view (else_at garbage expand lookup_variable (one_open 0) (codes "ifdef x") 1))
    × (ltb (flip 0) 2 ≡ false)
else_at_spent_example =
    else_at_spent garbage expand lookup_variable (one_open-Inside 0) refl refl (codes "ifdef x")

abbrev two_names : Bytes
two_names = codes "ifdef a b"

two_names_unread :
    ((at two_names == 0) ≡ false)
    × (directive (else_word two_names) ≡ some (opening c_ifdef))
    × (test_condition expand lookup_variable c_ifdef
          (next_token (drop (length (else_word two_names)) two_names))
        ≡ none)
unfolding at directive else_word test_condition next_token is_space token end_of_token
two_names_unread = (refl, refl, refl)

else_at_leaks_example :
    (g : ℕ) × (view (else_at garbage expand lookup_variable (one_open 1) two_names 1)
      ≡ settle (frame g 0 ∷ frame 0 0 ∷ []) 1)
else_at_leaks_example =
    else_at_leaks garbage expand lookup_variable (one_open-Inside 1) refl refl
      (unfold blocked in refl) two_names c_ifdef two_names_unread.0 two_names_unread.1
      two_names_unread.2
