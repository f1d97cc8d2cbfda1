-- ===== src/Logic.antt =====
-- make-4.4/src/function.c: strip_whitespace, func_if, func_or and func_and. Each takes its arguments
-- not yet expanded. The expansion of an argument (make-4.4/src/expand.c), with its effects on a state,
-- is the section's parameter; a result is the buffer in front of `o`, and the state.
pub mod Order
use gmake.Prelude.{ℕ, Bool, true, false, List, [], ◌∷◌, Bytes, if◌then◌else◌}
use gmake.Text.{is_space}
use gmake.Text.Output.{variable_buffer_output}

-- `while (*begpp <= *endpp && ISSPACE (**begpp)) (*begpp) ++;`
strip_front : Bytes → Bytes
strip_front [] = []
strip_front (c ∷ s) = if is_space c then strip_front s else c ∷ s

keep : ℕ → Bytes → Bytes
keep c [] = if is_space c then [] else c ∷ []
keep c (d ∷ s) = c ∷ d ∷ s

-- `while (*endpp >= *begpp && ISSPACE (**endpp)) (*endpp) --;`
strip_back : Bytes → Bytes
unfolding keep
strip_back [] = []
strip_back (c ∷ s) = keep c (strip_back s)

-- the bytes from `*begpp` to `*endpp`, both included
unfoldable pub strip_whitespace : Bytes → Bytes
unfolding strip_front strip_back
strip_whitespace s = strip_back (strip_front s)

module _ {S : Type 0} (expand_argument : Bytes → S → Bytes × S) where
  -- `result = expansion[0] != '\0';`
  unfoldable pub is_filled : Bytes × S → Bool × S
  is_filled ([], s) = (false, s)
  is_filled (c ∷ v, s) = (true, s)

  -- the value of a condition; a blank one is not expanded
  unfoldable pub if_result : Bytes → S → Bool × S
  unfolding is_filled
  if_result [] s = (false, s)
  if_result (c ∷ t) s = is_filled (expand_argument (c ∷ t) s)

  -- `if (*argv)`
  unfoldable pub expand_first : Bytes → List Bytes → S → Bytes × S
  expand_first o [] s = (o, s)
  expand_first o (x ∷ argv) s =
      let (v, after) = expand_argument x s in (variable_buffer_output o v, after)

  -- `argv += 1 + !result`
  unfoldable pub if_parts : Bytes → List Bytes → Bool × S → Bytes × S
  unfolding expand_first
  if_parts o parts (true, s) = expand_first o parts s
  if_parts o [] (false, s) = (o, s)
  if_parts o (then_part ∷ parts) (false, s) = expand_first o parts s

  -- the condition, and the parts; one part at least is given
  unfoldable pub func_if : Bytes → Bytes → List Bytes → S → Bytes × S
  unfolding strip_whitespace if_result if_parts
  func_if o condition parts s = if_parts o parts (if_result (strip_whitespace condition) s)

  -- the test of a condition's expansion
  unfoldable pub or_test : Bytes → (S → Bytes × S) → Bytes × S → Bytes × S
  or_test o rest ([], s) = rest s
  or_test o rest (c ∷ v, s) = (variable_buffer_output o (c ∷ v), s)

  -- a round of the loop over `argv`, the rounds to come in `rest`
  unfoldable pub or_round : Bytes → Bytes → (S → Bytes × S) → S → Bytes × S
  unfolding or_test
  or_round o [] rest s = rest s
  or_round o (c ∷ t) rest s = or_test o rest (expand_argument (c ∷ t) s)

  unfoldable pub func_or : Bytes → List Bytes → S → Bytes × S
  unfolding or_round strip_whitespace
  func_or o [] s = (o, s)
  func_or o (x ∷ argv) s = or_round o (strip_whitespace x) (func_or o argv) s

  -- a condition that is true: the last one is the result, behind another one comes the next round
  unfoldable pub and_true : Bytes → Bytes → List Bytes → (S → Bytes × S) → S → Bytes × S
  and_true o v [] rest s = (variable_buffer_output o v, s)
  and_true o v (x ∷ argv) rest s = rest s

  unfoldable pub and_test : Bytes → List Bytes → (S → Bytes × S) → Bytes × S → Bytes × S
  unfolding and_true
  and_test o argv rest ([], s) = (o, s)
  and_test o argv rest (c ∷ v, s) = and_true o (c ∷ v) argv rest s

  unfoldable pub and_round : Bytes → Bytes → List Bytes → (S → Bytes × S) → S → Bytes × S
  unfolding and_test
  and_round o [] argv rest s = (o, s)
  and_round o (c ∷ t) argv rest s = and_test o argv rest (expand_argument (c ∷ t) s)

  -- one argument at least is given
  unfoldable pub func_and : Bytes → List Bytes → S → Bytes × S
  unfolding and_round strip_whitespace
  func_and o [] s = (o, s)
  func_and o (x ∷ argv) s = and_round o (strip_whitespace x) argv (func_and o argv) s
