-- ===== src/Logic/Order.antt =====
-- The order in which func_if, func_or and func_and of make-4.4/src/function.c expand their
-- arguments, and where they stop.
use gmake.Logic.{
  strip_whitespace, is_filled, if_result, if_parts, expand_first, func_if, or_test, or_round,
  func_or, and_true, and_test, and_round, func_and,
}
use gmake.Prelude.{ℕ, ◌≡◌, refl, ◌∙◌, ap, sym, List, [], ◌∷◌, ◌++◌, append-nil, Bytes}

module _ {S : Type 0} (expand_argument : Bytes → S → Bytes × S) where
  -- the expansion of an argument without the whitespace around it; a blank one is empty
  unfoldable pub expanded : Bytes → S → Bytes × S
  expanded [] s = ([], s)
  expanded (c ∷ t) s = expand_argument (c ∷ t) s

  unfoldable pub condition : Bytes → S → Bytes × S
  condition x s = expanded (strip_whitespace x) s

  -- Conditions expanded one behind the other, from a state to a state: all of them are empty.
  pub data AllEmpty : List Bytes → S → S → Type 0 where
    no_more : (s : S) → AllEmpty [] s s
    empty_one :
        (x : Bytes) (xs : List Bytes) (s t u : S)
        → condition x s ≡ ([], t)
        → AllEmpty xs t u
        → AllEmpty (x ∷ xs) s u

  -- All of them are not.
  pub data NoneEmpty : List Bytes → S → S → Type 0 where
    no_others : (s : S) → NoneEmpty [] s s
    filled_one :
        (x : Bytes) (xs : List Bytes) (c : ℕ) (v : Bytes) (s t u : S)
        → condition x s ≡ (c ∷ v, t)
        → NoneEmpty xs t u
        → NoneEmpty (x ∷ xs) s u

  or_round-expanded :
      (o t : Bytes) (rest : S → Bytes × S) (s : S)
      → or_round expand_argument o t rest s ≡ or_test expand_argument o rest (expanded t s)
  unfolding or_round or_test expanded
  or_round-expanded o [] rest s = refl
  or_round-expanded o (c ∷ t) rest s = refl

  and_round-expanded :
      (o t : Bytes) (argv : List Bytes) (rest : S → Bytes × S) (s : S)
      → and_round expand_argument o t argv rest s
        ≡ and_test expand_argument o argv rest (expanded t s)
  unfolding and_round and_test expanded
  and_round-expanded o [] argv rest s = refl
  and_round-expanded o (c ∷ t) argv rest s = refl

  or_once :
      (o x : Bytes) (argv : List Bytes) (s : S)
      → func_or expand_argument o (x ∷ argv) s
        ≡ or_test expand_argument o (func_or expand_argument o argv) (condition x s)
  unfolding func_or condition
  or_once o x argv s = or_round-expanded o (strip_whitespace x) _ s

  and_once :
      (o x : Bytes) (argv : List Bytes) (s : S)
      → func_and expand_argument o (x ∷ argv) s
        ≡ and_test expand_argument o argv (func_and expand_argument o argv) (condition x s)
  unfolding func_and condition
  and_once o x argv s = and_round-expanded o (strip_whitespace x) argv _ s

  skip_empty :
      (o : Bytes) (xs ys : List Bytes) (s t : S)
      → AllEmpty xs s t
      → func_or expand_argument o (xs ++ ys) s ≡ func_or expand_argument o ys t
  unfolding or_test
  skip_empty o _ ys _ _ (no_more s) = refl
  skip_empty o _ ys _ _ (empty_one x xs s t u e h) =
      or_once o x (xs ++ ys) s
      ∙ ap (or_test expand_argument o (func_or expand_argument o (xs ++ ys))) e
      ∙ skip_empty o xs ys t u h

  -- `$(or ...)` expands its conditions from the left, in the state that the one before leaves, up to
  -- the first that is not empty: that one's expansion is the result, and those behind it are not
  -- expanded. If all are empty, all are expanded, and the result is empty.
  pub func_or-first :
      (o x : Bytes) (xs ys : List Bytes) (c : ℕ) (v : Bytes) (s t u : S)
      → AllEmpty xs s t
      → (func_or expand_argument o xs s ≡ (o, t))
        × (condition x t ≡ (c ∷ v, u)
            → func_or expand_argument o (xs ++ x ∷ ys) s ≡ (o ++ c ∷ v, u))
  unfolding func_or or_test
  func_or-first o x xs ys c v s t u h = (
    ap (λ argv. func_or expand_argument o argv s) (sym (append-nil xs)) ∙ skip_empty o xs [] s t h,
    λ e.
        skip_empty o xs (x ∷ ys) s t h
        ∙ or_once o x ys t
        ∙ ap (or_test expand_argument o (func_or expand_argument o ys)) e,
  )

  another_condition :
      (o x : Bytes) (xs ys : List Bytes) (c : ℕ) (v : Bytes) (t : S)
      → and_test expand_argument o
          (xs ++ x ∷ ys)
          (func_and expand_argument o (xs ++ x ∷ ys))
          (c ∷ v, t)
        ≡ func_and expand_argument o (xs ++ x ∷ ys) t
  unfolding and_test and_true
  another_condition o x [] ys c v t = refl
  another_condition o x (w ∷ xs) ys c v t = refl

  skip_filled :
      (o x : Bytes) (xs ys : List Bytes) (s t : S)
      → NoneEmpty xs s t
      → func_and expand_argument o (xs ++ x ∷ ys) s ≡ func_and expand_argument o (x ∷ ys) t
  skip_filled o x _ ys _ _ (no_others s) = refl
  skip_filled o x _ ys _ _ (filled_one w xs c v s t u e h) =
      and_once o w (xs ++ x ∷ ys) s
      ∙ ap (and_test expand_argument o (xs ++ x ∷ ys) (func_and expand_argument o (xs ++ x ∷ ys))) e
      ∙ another_condition o x xs ys c v t
      ∙ skip_filled o x xs ys t u h

  -- `$(and ...)` expands its conditions from the left, in the state that the one before leaves, up to
  -- the first that is empty: the result is empty, and those behind it are not expanded. If none is
  -- empty, the result is the expansion of the last.
  pub func_and-first :
      (o x : Bytes) (xs ys : List Bytes) (c : ℕ) (v : Bytes) (s t u : S)
      → NoneEmpty xs s t
      → (condition x t ≡ ([], u) → func_and expand_argument o (xs ++ x ∷ ys) s ≡ (o, u))
        × (condition x t ≡ (c ∷ v, u)
            → func_and expand_argument o (xs ++ x ∷ []) s ≡ (o ++ c ∷ v, u))
  unfolding and_test and_true
  func_and-first o x xs ys c v s t u h = (
    λ e.
        skip_filled o x xs ys s t h
        ∙ and_once o x ys t
        ∙ ap (and_test expand_argument o ys (func_and expand_argument o ys)) e,
    λ e.
        skip_filled o x xs [] s t h
        ∙ and_once o x [] t
        ∙ ap (and_test expand_argument o [] (func_and expand_argument o [])) e,
  )

  if_result-expanded :
      (t : Bytes) (s : S) → if_result expand_argument t s ≡ is_filled expand_argument (expanded t s)
  unfolding if_result expanded is_filled
  if_result-expanded [] s = refl
  if_result-expanded (c ∷ t) s = refl

  -- `$(if ...)` expands its condition, and then just one of its parts, in the state that the
  -- condition leaves: the first if the condition is not empty, else the second; with no second part
  -- the result is then empty.
  pub func_if-part :
      (o x y z : Bytes) (c : ℕ) (v : Bytes) (s t : S)
      → (condition x s ≡ (c ∷ v, t)
          → (zs : List Bytes)
          → func_if expand_argument o x (y ∷ zs) s
            ≡ (o ++ (expand_argument y t).0, (expand_argument y t).1))
        × (condition x s ≡ ([], t)
            → (func_if expand_argument o x (y ∷ z ∷ []) s
                ≡ (o ++ (expand_argument z t).0, (expand_argument z t).1))
              × (func_if expand_argument o x (y ∷ []) s ≡ (o, t)))
  unfolding func_if if_parts expand_first is_filled condition
  func_if-part o x y z c v s t =
      let value = if_result-expanded (strip_whitespace x) s in
      (
        λ e zs. ap (if_parts expand_argument o (y ∷ zs)) (value ∙ ap (is_filled expand_argument) e),
        λ e. (
          ap (if_parts expand_argument o (y ∷ z ∷ [])) (value ∙ ap (is_filled expand_argument) e),
          ap (if_parts expand_argument o (y ∷ [])) (value ∙ ap (is_filled expand_argument) e),
        ),
      )
