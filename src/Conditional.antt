-- ===== src/Conditional.antt =====
-- make-4.4/src/read.c, conditional_line: the stack of open conditionals and what each directive line
-- does to it. The arrays `ignoring` and `seen_else` hold `allocated` bytes each; what fresh memory
-- holds is the parameter `garbage`. A call of `fatal` ends make; `error` prints and goes on.
pub mod Frames
pub mod Safety
pub mod Chain
pub mod Branches
pub mod Else
pub mod Once
use gmake.Condition.{Opening, c_ifdef, c_ifndef, c_ifeq, c_ifneq, at, test_condition}
use gmake.Prelude.{
  ℕ, zero, suc, ◌+◌, ◌-◌, Bool, true, false, not, List, [], ◌∷◌, ◌++◌, Option, none, some, Bytes,
  codes, ltb, ◌==◌, ◌=?◌, if◌then◌else◌, length, get_or, set, take, drop,
}
use gmake.Text.{next_token, token}

pub record Conditionals : Type 0 where
  pub if_cmds : ℕ
  pub allocated : ℕ
  pub ignoring : List ℕ
  pub seen_else : List ℕ

pub data Directive : Type 0 where
  opening : Opening → Directive
  c_else c_endif : Directive

-- the returned -2, -1, 0 and 1
pub data Verdict : Type 0 where
  not_conditional invalid interpret ignore : Verdict

pub data Fatal : Type 0 where
  extraneous_else extraneous_endif second_else : Fatal

-- The end of make by `fatal`; or a return, with the state and the number of complaints by `error`.
pub data Result : Type 0 where
  fatal : Fatal → Result
  returns : Verdict → Conditionals → ℕ → Result

unfoldable pub directive : Bytes → Option Directive
directive word =
    if word =? codes "ifdef"
    then some (opening c_ifdef)
    else if word =? codes "ifndef"
    then some (opening c_ifndef)
    else if word =? codes "ifeq"
    then some (opening c_ifeq)
    else if word =? codes "ifneq"
    then some (opening c_ifneq)
    else if word =? codes "else"
    then some c_else
    else if word =? codes "endif"
    then some c_endif
    else none

-- `for (i = 0; i < n; ++i) if (conditionals->ignoring[i])`
unfoldable pub any_ignoring : ℕ → List ℕ → Bool
any_ignoring zero levels = false
any_ignoring (suc n) [] = false
any_ignoring (suc n) (l ∷ levels) = if l == 0 then any_ignoring n levels else true

-- the label DONE
unfoldable pub done : Conditionals → ℕ → Result
unfolding any_ignoring
done s complaints =
    if any_ignoring s.if_cmds s.ignoring
    then returns ignore s complaints
    else returns interpret s complaints

unfoldable pub bool_to_int : Bool → ℕ
bool_to_int true = 1
bool_to_int false = 0

unfoldable pub endif_at : Conditionals → ℕ → ℕ → Result
unfolding done
endif_at s zero complaints = fatal extraneous_endif
endif_at s (suc depth) complaints = done (record s { if_cmds = depth }) complaints

-- an `endif`, with what follows it on the line
unfoldable pub endif_line : Conditionals → Bytes → Result
unfolding at endif_at
endif_line s line = endif_at s s.if_cmds (if at line == 0 then 0 else 1)

-- "Change the state of ignorance": the `switch` of an `else`
unfoldable pub flip : ℕ → ℕ
flip state = if state == 0 then 2 else if state == 1 then 0 else state

-- the word behind an `else`
unfoldable pub else_word : Bytes → Bytes
else_word [] = []
else_word (c ∷ s) = c ∷ token s

module _ (garbage : ℕ → ℕ) where
  -- n cells of fresh memory, from the i-th cell of the array on
  unfoldable pub fresh : ℕ → ℕ → List ℕ
  fresh i zero = []
  fresh i (suc n) = garbage i ∷ fresh (i + 1) n

  -- the first allocation
  unfoldable pub reserve : Conditionals → Conditionals
  unfolding fresh
  reserve s =
      if s.allocated == 0
      then record s { allocated = 5; ignoring = fresh 0 5; seen_else = fresh 0 5 }
      else s

  -- the reallocation, with the level already counted
  unfoldable pub grow : Conditionals → Conditionals
  unfolding fresh
  grow s =
      if ltb s.allocated s.if_cmds
      then record s {
        allocated = s.allocated + 5;
        ignoring = s.ignoring ++ fresh s.allocated 5;
        seen_else = s.seen_else ++ fresh s.allocated 5;
      }
      else s

  -- a new level, with no `else` seen
  unfoldable pub push : Conditionals → Conditionals
  unfolding reserve grow
  push s =
      let r = reserve s in
      let g = grow (record r { if_cmds = r.if_cmds + 1 }) in
      record g { seen_else = set g.seen_else r.if_cmds 0 }

-- the outcome of the condition is stored, or -1 is returned
unfoldable pub store : Conditionals → ℕ → Option (Bool × Bool) → Result
unfolding done bool_to_int
store s o none = returns invalid s 0
store s o (some (ignored, extra)) =
    done (record s { ignoring = set s.ignoring o (bool_to_int ignored) }) (bool_to_int extra)

-- "Raise it back to this level"
unfoldable pub raise : ℕ → Conditionals → Conditionals
raise o s = record s {
  if_cmds = s.if_cmds - 1;
  ignoring =
      if ltb (get_or s.ignoring o 0) 2
      then set s.ignoring o (get_or s.ignoring (o + 1) 0)
      else s.ignoring;
}

-- what an `else` does with the result of the conditional behind it
unfoldable pub merge : ℕ → Result → Result
unfolding done raise
merge o (fatal f) = fatal f
merge o (returns not_conditional s n) = done s (n + 1)
merge o (returns invalid s n) = done s (n + 1)
merge o (returns interpret s n) = done (raise o s) n
merge o (returns ignore s n) = done (raise o s) n

module _ (garbage : ℕ → ℕ) (expand : Bytes → Bytes) (lookup_variable : Bytes → Option Bytes) where
  -- `ifdef`, `ifndef`, `ifeq` and `ifneq`
  unfoldable pub open_line : Opening → Conditionals → Bytes → Result
  unfolding push store any_ignoring test_condition
  open_line cmdtype s line =
      let s' = push garbage s in
      if any_ignoring s.if_cmds s'.ignoring
      then returns ignore (record s' { ignoring = set s'.ignoring s.if_cmds 1 }) 0
      else store s' s.if_cmds (test_condition expand lookup_variable cmdtype line)

  -- text behind an `else`: `else` and `endif` are refused before the call of conditional_line
  unfoldable pub else_if : ℕ → Conditionals → Bytes → Option Directive → Result
  unfolding merge open_line done else_word
  else_if o s line none = merge o (returns not_conditional s 0)
  else_if o s line (some c_else) = done s 1
  else_if o s line (some c_endif) = done s 1
  else_if o s line (some (opening d)) =
      merge o (open_line d s (next_token (drop (length (else_word line)) line)))

  unfoldable pub else_at : Conditionals → Bytes → ℕ → Result
  unfolding at else_if flip directive else_word done
  else_at s line zero = fatal extraneous_else
  else_at s line (suc o) =
      let s' = record s { ignoring = set s.ignoring o (flip (get_or s.ignoring o 0)) } in
      if not (get_or s.seen_else o 0 == 0)
      then fatal second_else
      else if at line == 0
      then done (record s' { seen_else = set s'.seen_else o 1 }) 0
      else else_if o s' line (directive (else_word line))

  unfoldable pub conditional_at : Conditionals → Bytes → Option Directive → Result
  unfolding else_at endif_line open_line
  conditional_at s line none = returns not_conditional s 0
  conditional_at s line (some c_endif) = endif_line s line
  conditional_at s line (some c_else) = else_at s line s.if_cmds
  conditional_at s line (some (opening d)) = open_line d s line

  -- LEN is the length of the first word of LINE
  unfoldable pub conditional_line : Conditionals → Bytes → ℕ → Result
  unfolding conditional_at directive
  conditional_line s line len =
      conditional_at s (next_token (drop len line)) (directive (take len line))
