-- ===== src/Expand/Dollars.antt =====
-- `$$` in make-4.4/src/expand.c, and the text that do_variable_definition of make-4.4/src/variable.c makes for :::=.
use gmake.Condition.{to_byte, advance}
use gmake.Expand.{Functions, expanded, expand_dollar, expand_rest, expand_from, variable_expand}
use gmake.Flavors.{double_dollars}
use gmake.Prelude.{
  ℕ, zero, suc, ◌<◌, ◌≡◌, refl, ◌∙◌, ap, sym, inl, inr, false, List, [], ◌∷◌, ◌++◌, append_assoc,
  append-nil, Bytes, ◌==◌, arith, length, Bool-cases,
}
use gmake.Variables.{Variable}

module _ (f : Functions) where
  -- a byte that is no `$` goes to the buffer
  plain_byte :
      (fuel c : ℕ) (o s : Bytes) (vars : List Variable)
      → (c == b'$') ≡ false
      → expand_from f (suc fuel) o (c ∷ s) vars ≡ expand_from f (suc fuel) (o ++ (c ∷ [])) s vars
  unfolding expand_from to_byte
  plain_byte fuel c o s vars e = rw e (
      ap (λ b. expand_rest f (expand_from f fuel) b (to_byte b'$' s).1 vars)
        (sym (append_assoc o (c ∷ []) (to_byte b'$' s).0)))

  dollar_pair :
      (fuel : ℕ) (o s : Bytes) (vars : List Variable)
      → expand_from f (suc fuel) o (b'$' ∷ b'$' ∷ s) vars
        ≡ expand_from f fuel (o ++ (b'$' ∷ [])) s vars
  unfolding expand_from to_byte expand_rest expand_dollar advance
  dollar_pair fuel o s vars = ap (λ b. expand_from f fuel (b ++ (b'$' ∷ [])) s vars) (append-nil o)

  expands_back :
      (t o : Bytes) (fuel : ℕ) (vars : List Variable)
      → length t < fuel
      → expand_from f fuel o (double_dollars t) vars ≡ expanded (o ++ t) vars
  unfolding double_dollars
  expands_back t o zero vars b = absurd (omega arith)
  expands_back [] o (suc fuel) vars b = unfold expand_from to_byte expand_rest in refl
  expands_back (c ∷ t) o (suc fuel) vars b = elim (Bool-cases (c == b'$')) [
    | inl e ↦
        let same : c ≡ b'$' = ground arith in
        rw e rw same (
          dollar_pair fuel o (double_dollars t) vars
          ∙ expands_back t (o ++ (b'$' ∷ [])) fuel vars (omega arith)
          ∙ ap (λ b. expanded b vars) (append_assoc o (b'$' ∷ []) t))
    | inr e ↦ rw e (
        plain_byte fuel c o (double_dollars t) vars e
        ∙ expands_back t (o ++ (c ∷ [])) (suc fuel) vars (omega arith)
        ∙ ap (λ b. expanded b vars) (append_assoc o (c ∷ []) t))
  ]

  -- A text whose `$` the assignment :::= has doubled is expanded to what it was, in a round for each of its bytes and
  -- one more, and nothing is looked up.
  pub expand-double_dollars :
      (t : Bytes) (fuel : ℕ) (vars : List Variable)
      → length t < fuel
      → variable_expand f fuel (double_dollars t) vars ≡ expanded t vars
  unfolding variable_expand
  expand-double_dollars t fuel vars b = expands_back t [] fuel vars b
