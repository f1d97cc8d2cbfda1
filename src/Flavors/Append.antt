-- ===== src/Flavors/Append.antt =====
-- What `+=` makes of a variable: do_variable_definition of make-4.4/src/variable.c.
use gmake.Flavors.{Assigned, kept, assigned, paste, append_value, append_flavor, flavor_value}
use gmake.Prelude.{
  ℕ, zero, suc, ◌<◌, ◌≤◌, ◌≡◌, refl, ◌∙◌, ap, sym, ◌⊎◌, inl, inr, Bool, true, false, ◌&&◌, [], ◌∷◌,
  ◌++◌, append_assoc, some, Bytes, ◌==◌, if◌then◌else◌, arith, length, Bool-cases,
}
use gmake.Text.{is_space, token, end_of_token, tokens}
use gmake.Text.Tokens.{
  length-end_of_token, IsWord, Ends, is_space-blank, token-IsSolid, token-append-end, tokens-append,
  tokens-space, tokens-nil,
}
use gmake.Variables.{Variable, f_append}

end_of_token-Ends : (s : Bytes) → Ends (end_of_token s)
unfolding end_of_token Ends
end_of_token-Ends [] = tt
end_of_token-Ends (c ∷ s) = elim (Bool-cases (is_space c)) [
  | inl e ↦ rw e e
  | inr e ↦ rw e (end_of_token-Ends s)
]

append-Ends : (s : Bytes) (c : ℕ) (b : Bytes) → is_space c ≡ true → Ends s → Ends (s ++ (c ∷ b))
unfolding Ends
append-Ends [] c b e ends = e
append-Ends (x ∷ s) c b e ends = ends

-- a first byte that is no whitespace is in the first token
token-IsWord : (c : ℕ) (s : Bytes) → is_space c ≡ false → IsWord (token (c ∷ s))
unfolding token
token-IsWord c s e = record {
  filled = λ empty. (let some_byte = rw e at empty in cc);
  solid = token-IsSolid (c ∷ s);
}

split_first :
    (c : ℕ) (s r : Bytes)
    → is_space c ≡ false
    → Ends (end_of_token (c ∷ s) ++ r)
    → tokens ((c ∷ s) ++ r) ≡ token (c ∷ s) ∷ tokens (end_of_token (c ∷ s) ++ r)
split_first c s r e ends =
    ap (λ t. tokens (t ++ r)) (sym (token-append-end (c ∷ s)))
    ∙ ap tokens (append_assoc (token (c ∷ s)) (end_of_token (c ∷ s)) r)
    ∙ tokens-append (token (c ∷ s)) (end_of_token (c ∷ s) ++ r) (token-IsWord c s e) ends

-- whitespace between two texts keeps their words apart
tokens-within_fuel :
    (fuel : ℕ) (a : Bytes) (c : ℕ) (b : Bytes)
    → length a < fuel
    → is_space c ≡ true
    → tokens (a ++ (c ∷ b)) ≡ tokens a ++ tokens b
tokens-within_fuel zero a c b low e = absurd (omega arith)
tokens-within_fuel (suc fuel) [] c b low e =
    tokens-space c b e ∙ ap (λ ws. ws ++ tokens b) (sym tokens-nil)
tokens-within_fuel (suc fuel) (x ∷ a) c b low e = elim (Bool-cases (is_space x)) [
  | inl t ↦
      tokens-space x (a ++ (c ∷ b)) t
      ∙ tokens-within_fuel fuel a c b (omega arith) e
      ∙ ap (λ ws. ws ++ tokens b) (sym (tokens-space x a t))
  | inr t ↦
      let rest = end_of_token (x ∷ a) in
      let ends = end_of_token-Ends (x ∷ a) in
      let skips : end_of_token (x ∷ a) ≡ end_of_token a = unfold end_of_token in rw t refl in
      let fewer : length (end_of_token (x ∷ a)) ≤ length a = rw skips (length-end_of_token a) in
      let shorter : length rest < fuel = omega arith in
      let later = tokens-within_fuel fuel rest c b shorter e in
      let alone : tokens (x ∷ a) ≡ token (x ∷ a) ∷ tokens rest =
        ap tokens (sym (token-append-end (x ∷ a)))
        ∙ tokens-append (token (x ∷ a)) rest (token-IsWord x a t) ends in
      split_first x a (c ∷ b) t (append-Ends rest c b e ends)
      ∙ ap (λ ws. token (x ∷ a) ∷ ws) later
      ∙ ap (λ ws. ws ++ tokens b) (sym alone)
]

tokens-paste : (old val : Bytes) → tokens (paste old val) ≡ tokens old ++ tokens val
unfolding paste
tokens-paste [] val = ap (λ ws. ws ++ tokens val) (sym tokens-nil)
tokens-paste (c ∷ old) val =
    let filled : (suc (length old) == 0) ≡ false = ground arith in
    rw filled
      (tokens-within_fuel (suc (suc (length old))) (c ∷ old) b' ' val (omega arith) is_space-blank)

-- what a variable with this value becomes by a text appended
pub Appended : Bytes → Bool → Bool → Bytes → Assigned → Type 0
Appended old recursive append val r =
    ((val ≡ []) × (r ≡ kept))
    ⊎ ((p : Bytes) × (r ≡ assigned p recursive append false)
        × (tokens p ≡ tokens old ++ tokens val))

append_value-Appended :
    (val old : Bytes) (recursive append : Bool)
    → Appended old recursive append val (append_value val old recursive append)
unfolding Appended append_value
append_value-Appended [] old recursive append = inl (refl, refl)
append_value-Appended (c ∷ val) old recursive append =
    let filled : (suc (length val) == 0) ≡ false = ground arith in
    inr (paste old (c ∷ val), rw filled refl, tokens-paste old (c ∷ val))

module _ {ℓ} {S : Type ℓ} (value_of : Variable → S → Bytes)
    (allocated_variable_expand shell_result : Bytes → S → Bytes × S) where
  -- An assignment with += to a variable that is there: a text is appended, which is the value as written where the variable
  -- is recursive, and its expansion where it is not, with the expansion's state; else the state stays. The text that is
  -- appended is empty, and the variable is kept, or the variable gets a value whose words are those of the value that it
  -- has in that state, behind the expansion, and then those of the text; it stays recursive or not. In a
  -- target it appends if the old one does.
  pub append-words :
      (target_var : Bool) (v : Variable) (value : Bytes) (s : S)
      → (val : Bytes) × (after : S) × (r : Assigned) × (flavor_value value_of
            allocated_variable_expand shell_result f_append target_var
            (some v)
            value
            s
          ≡ (r, after))
        × ((val, after) ≡ (if v.recursive then (value, s) else allocated_variable_expand value s))
        × Appended (value_of v after) v.recursive (target_var && v.append) val r
  unfolding flavor_value append_flavor
  append-words target_var v value s =
      let append = target_var && v.append in
      let (val, after) = allocated_variable_expand value s in
      elim (Bool-cases v.recursive) [
        | inl t ↦ (
          value,
          s,
          append_value value (value_of v s) v.recursive append,
          rw t refl,
          rw t refl,
          append_value-Appended value (value_of v s) v.recursive append,
        )
        | inr t ↦ (
          val,
          after,
          append_value val (value_of v after) v.recursive append,
          rw t refl,
          rw t refl,
          append_value-Appended val (value_of v after) v.recursive append,
        )
      ]
