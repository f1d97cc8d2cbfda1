-- ===== src/Expand/Finish.antt =====
-- The expansions of make-4.4/src/expand.c end: a variable is entered no more often than its flag and its count allow,
-- and all other text that is expanded is a part of the text at hand.
use gmake.Condition.{to_byte}
use gmake.Expand.{
  is_userfunc, Expansion, unfinished, unterminated, fatal, references_itself, expanded, Functions,
  lookup_place, entered, to_matching, recursively_expand, variable_value, reference_variable,
  substitution_reference, expand_reference, expand_named, expand_parens, expand_dollar,
}
use gmake.Expand.Calls.{
  NoCall, first_NoCall, NoCall-front, NoCall-behind, to_byte-NoCall, to_matching-split,
  handle_function-NoCall,
}
use gmake.Expand.Outcome.{
  Finished, Finished_trans, append_to-Finished, substitute-Finished, done-Finished, if_Finished,
  here, itself, never, List-cases, length-to_byte, length-to_matching, room_less, room_for,
}
use gmake.Expand.Weight.{
  IsPlain, IsPlain-same, shape, weight, Lighter, Fits, weight-le, Lighter-Fits, lookup_place-get,
  weight-entered, Fits-entered,
}
use gmake.Hash.Rounds.{some_inj}
use gmake.Prelude.{
  true, false, refl, ◌∙◌, sym, ◌||◌, ◌++◌, ℕ, zero, suc, ◌+◌, ◌*◌, ◌≤◌, ◌<◌, ◌≡◌, ap, inl, inr, not,
  ◌&&◌, List, [], ◌∷◌, some, Bytes, ◌==◌, arith, length, set, get_elem?, Bool-cases, Option-cases,
}
use gmake.Variables.{Variable}

-- `expand` ends on every text that is within the bound: `most` is the longest value
module _ (f : Functions) (expand : Bytes → List Variable → Expansion) (most bound : ℕ)
    (ends : (text : Bytes) (vars : List Variable)
      → Fits f.function_table most vars
      → NoCall f.function_table text
      → length text ≤ most
      → weight vars * suc most + length text < bound
      → Finished vars (expand text vars)) where
  -- variables that leave room for one to be entered
  abbrev Roomy : List Variable → Type 0
  Roomy vars = Fits f.function_table most vars × (weight vars * suc most ≤ bound)

  Roomy-Lighter : (vs us : List Variable) → Lighter vs us → Roomy us → Roomy vs
  Roomy-Lighter vs us light (fits, room) =
      let lower = weight-le vs us light in
      (
        Lighter-Fits f.function_table most vs us light fits,
        room_less (weight vs) (weight us) most bound lower room,
      )

  value-Fits :
      (place : ℕ) (vars : List Variable) (v : Variable)
      → get_elem? vars place ≡ some v
      → Fits f.function_table most vars
      → IsPlain f.function_table most (shape v)
  value-Fits place [] v at fits = cc
  value-Fits zero (u ∷ vars) v at (b, fits) =
      IsPlain-same f.function_table most (shape u) (shape v) (ap shape (some_inj at)) b
  value-Fits (suc place) (u ∷ vars) v at (b, fits) = value-Fits place vars v at fits

  recursively_expand-Finished :
      (place : ℕ) (v : Variable) (vars : List Variable)
      → get_elem? vars place ≡ some v
      → Roomy vars
      → Finished vars (recursively_expand f expand place v vars)
  unfolding recursively_expand
  recursively_expand-Finished place v vars at (fits, room) =
      let inside = set vars place (entered v) in
      if_Finished vars (v.expanding && f.env_recursion) _ _ (λ e. here _ vars)
        λ e.
          if_Finished vars (v.expanding && v.exp_count == 0) _ _ (λ d. itself v.name vars)
            λ d.
              let less = weight-entered place vars v at d in
              let (small, plain, own) = value-Fits place vars v at fits in
              done-Finished place vars v _ at d (
                if_Finished inside v.append _ _ (λ a. (let lost : true ≡ false = sym a ∙ own in cc))
                  (λ a.
                    ends v.value inside (Fits-entered f.function_table most place vars v at fits)
                      plain small
                      (room_for (weight inside) (weight vars) most (length v.value) bound less small
                        room)))

  variable_value-Finished :
      (place : ℕ) (v : Variable) (vars : List Variable)
      → get_elem? vars place ≡ some v
      → Roomy vars
      → Finished vars (variable_value f expand place v vars)
  unfolding variable_value
  variable_value-Finished place v vars at roomy =
      if_Finished vars v.recursive _ _ (λ e. recursively_expand-Finished place v vars at roomy)
        (λ e. here _ vars)

  reference_variable-Finished :
      (o name : Bytes) (vars : List Variable)
      → Roomy vars
      → Finished vars (reference_variable f expand o name vars)
  unfolding reference_variable
  reference_variable-Finished o name vars roomy = elim (Option-cases (lookup_place name vars)) [
    | inl e ↦ rw (e, reference_variable) (here o vars)
    | inr ((place, v), e) ↦
        rw (e, reference_variable)
          (if_Finished vars (length v.value == 0 && not v.append) _ _ (λ _. here o vars)
            (λ _.
              append_to-Finished vars o _ (
                variable_value-Finished place v vars (lookup_place-get name vars place v e) roomy)))
  ]

  substitution_reference-Finished :
      (o name subst replace : Bytes) (vars : List Variable)
      → Roomy vars
      → Finished vars (substitution_reference f expand o name subst replace vars)
  unfolding substitution_reference
  substitution_reference-Finished o name subst replace vars roomy =
      elim (Option-cases (lookup_place name vars)) [
        | inl e ↦ rw (e, substitution_reference) (here o vars)
        | inr ((place, v), e) ↦
            rw (e, substitution_reference)
              (if_Finished vars (length v.value == 0) _ _ (λ _. here o vars)
                (λ _. substitute-Finished f expand vars o subst replace _ (
                  variable_value-Finished place v vars (lookup_place-get name vars place v e)
                    roomy)))
      ]

  expand_reference-Finished :
      (o name : Bytes) (vars : List Variable)
      → Roomy vars
      → Finished vars (expand_reference f expand o name vars)
  unfolding expand_reference
  expand_reference-Finished o name vars roomy =
      let whole = reference_variable-Finished o name vars roomy in
      elim (to_byte b':' name).1
        as (λ colon. Finished vars (elim colon [
          | [] ↦ reference_variable f expand o name vars
          | c ∷ rest ↦ elim (to_byte b'=' rest).1 [
            | [] ↦ reference_variable f expand o name vars
            | e ∷ replace ↦
                substitution_reference f expand o (to_byte b':' name).0 (to_byte b'=' rest).0
                  replace vars
          ]
        ])) [
          | [] ↦ whole
          | c ∷ rest ↦
              elim (to_byte b'=' rest).1
                as (λ equals. Finished vars (elim equals [
                  | [] ↦ reference_variable f expand o name vars
                  | e ∷ replace ↦
                      substitution_reference f expand o (to_byte b':' name).0 (to_byte b'=' rest).0
                        replace vars
                ])) [
                  | [] ↦ whole
                  | e ∷ replace ↦
                      substitution_reference-Finished o (to_byte b':' name).0 (to_byte b'=' rest).0
                        replace vars roomy
                ]
        ]

  expand_named-Finished :
      (o : Bytes) (vars : List Variable) (r : Expansion)
      → Roomy vars
      → Finished vars r
      → Finished vars (expand_named f expand o r)
  unfolding expand_named Finished
  expand_named-Finished o vars unfinished roomy fin = elim fin [ ]
  expand_named-Finished o vars unterminated roomy fin = tt
  expand_named-Finished o vars fatal roomy fin = elim fin [ ]
  expand_named-Finished o vars (references_itself name) roomy fin = tt
  expand_named-Finished o vars (expanded name after) roomy fin =
      Finished_trans after vars (expand_reference f expand o name after) fin
        (expand_reference-Finished o name after (Roomy-Lighter after vars fin roomy))

  expand_parens-Finished :
      (opener closer : ℕ) (o beg : Bytes) (vars : List Variable)
      → (opener == b'(' || opener == b'{') ≡ true
      → is_userfunc closer ≡ false
      → NoCall f.function_table (b'$' ∷ opener ∷ beg)
      → Fits f.function_table most vars
      → length beg ≤ most
      → weight vars * suc most + length beg < bound
      → Finished vars (expand_parens f expand opener closer o beg vars).0
        × (length (expand_parens f expand opener closer o beg vars).1 ≤ suc (length beg))
        × NoCall f.function_table (expand_parens f expand opener closer o beg vars).1
  unfolding expand_parens NoCall
  expand_parens-Finished opener closer o beg vars paren close (first, (second, plain)) fits short
        low =
      let table = f.function_table in
      let roomy : Roomy vars = (fits, omega arith) in
      let e =
        handle_function-NoCall f opener beg vars (first_NoCall table opener beg first) paren in
      let name = (to_byte closer beg).0 in
      let sizes = length-to_byte closer beg in
      let rest_plain = to_byte-NoCall table closer beg plain in
      elim (List-cases (to_byte closer beg).1) [
        | inl d ↦ rw (e, d, expand_parens) (never vars, omega arith, tt)
        | inr (end, rest, d) ↦
            let size = ap length d in
            let after : NoCall table (end ∷ rest) = rw d at rest_plain in
            elim (List-cases (to_byte b'$' name).1) [
              | inl g ↦
                  rw (e, d, g, expand_parens)
                    (expand_reference-Finished o name vars roomy, omega arith, after)
              | inr (dollar, more, g) ↦ elim (Option-cases (to_matching opener closer 0 beg)) [
                | inl m ↦
                    rw (e, d, g, m, expand_parens)
                      (expand_reference-Finished o name vars roomy, omega arith, tt)
                | inr ((inner, p), m) ↦
                    let parts = length-to_matching opener closer 0 beg inner p m in
                    let (r, there, split) = to_matching-split opener closer 0 beg inner p m in
                    let whole = split ∙ ap (λ x. inner ++ x) there in
                    rw (e, d, g, m, expand_parens)
                      (
                        expand_named-Finished o vars (expand inner vars) roomy (
                            ends inner vars fits
                              (NoCall-front table inner r closer close (rw whole at plain))
                              (omega arith) (omega arith)),
                        omega arith,
                        NoCall-behind table inner p (rw split at plain),
                      )
              ]
            ]
      ]

  pub expand_dollar-Finished :
      (o : Bytes) (c : ℕ) (s : Bytes) (vars : List Variable)
      → NoCall f.function_table (b'$' ∷ c ∷ s)
      → Fits f.function_table most vars
      → length s ≤ most
      → weight vars * suc most + length s < bound
      → Finished vars (expand_dollar f expand o c s vars).0
        × (length (expand_dollar f expand o c s vars).1 ≤ suc (length s))
        × NoCall f.function_table (expand_dollar f expand o c s vars).1
  unfolding expand_dollar NoCall is_userfunc
  expand_dollar-Finished o c s vars plain fits short low = elim (Bool-cases (c == b'$')) [
    | inl e ↦ rw (e, expand_dollar) (here _ vars, omega arith, plain.1)
    | inr e ↦ elim (Bool-cases (c == b'(')) [
      | inl d ↦
          let same : c ≡ b'(' = ground arith in
          rw (e, d, expand_dollar)
            (expand_parens-Finished b'(' b')' o s vars refl refl (rw same at plain) fits short low)
      | inr d ↦ elim (Bool-cases (c == b'{')) [
        | inl g ↦
            let same : c ≡ b'{' = ground arith in
            rw (e, d, g, expand_dollar)
              (expand_parens-Finished b'{' b'}' o s vars refl refl (rw same at plain) fits short
                low)
        | inr g ↦
            rw (e, d, g, expand_dollar)
              (
                reference_variable-Finished o (c ∷ []) vars (fits, omega arith),
                omega arith,
                plain.1,
              )
      ]
    ]
  ]
