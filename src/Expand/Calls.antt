-- ===== src/Expand/Calls.antt =====
-- Texts that call no function, for make-4.4/src/expand.c.
use gmake.Condition.{to_byte, advance}
use gmake.Expand.{
  Functions, to_matching, is_userfunc, name_run, is_function, ends_name, lookup_function,
  handle_function,
}
use gmake.Hash.Rounds.{some_inj}
use gmake.Prelude.{
  ℕ, ◌+◌, ◌-◌, ◌≡◌, refl, ◌∙◌, ap, sym, inl, inr, Bool, true, false, not, ◌&&◌, ◌||◌, List, [], ◌∷◌,
  ◌++◌, none, some, Bytes, ◌==◌, if◌then◌else◌, arith, Bool-cases, Option-cases,
}
use gmake.Variables.{Variable}

-- a paren or a brace, and the name of a function
unfoldable pub opens_call : List Bytes → Bytes → Bool
opens_call table [] = false
opens_call table (c ∷ s) = (c == b'(' || c == b'{') && is_function table s

-- In no place of the text stands a `$`, a paren or a brace, and the name of a function of the table.
unfoldable pub NoCall : List Bytes → Bytes → Type 0
NoCall table [] = Unit
NoCall table (c ∷ s) = ((c == b'$' && opens_call table s) ≡ false) × NoCall table s

name_run-append :
    (s r : Bytes) (c : ℕ) → is_userfunc c ≡ false → (name_run (s ++ (c ∷ r))).0 ≡ (name_run s).0
unfolding name_run
name_run-append [] r c e = rw (e, name_run) refl
name_run-append (x ∷ s) r c e = elim (Bool-cases (is_userfunc x)) [
  | inl d ↦ rw (d, name_run) (ap (λ n. x ∷ n) (name_run-append s r c e))
  | inr d ↦ rw (d, name_run) refl
]

is_function-append :
    (table : List Bytes) (s r : Bytes) (c : ℕ)
    → is_userfunc c ≡ false
    → is_function table (s ++ (c ∷ r)) ≡ is_function table s
unfolding is_function
is_function-append table s r c e = rw (name_run-append s r c e) refl

-- a text up to a byte that is in no name
pub NoCall-front :
    (table : List Bytes) (s r : Bytes) (c : ℕ)
    → is_userfunc c ≡ false
    → NoCall table (s ++ (c ∷ r))
    → NoCall table s
unfolding NoCall opens_call
NoCall-front table [] r c e plain = tt
NoCall-front table (x ∷ []) r c e (first, plain) = (ground arith, tt)
NoCall-front table (x ∷ y ∷ s) r c e (first, plain) =
    (rw (is_function-append table s r c e) at first, NoCall-front table (y ∷ s) r c e plain)

pub NoCall-behind : (table : List Bytes) (s r : Bytes) → NoCall table (s ++ r) → NoCall table r
unfolding NoCall
NoCall-behind table [] r plain = plain
NoCall-behind table (c ∷ s) r (first, plain) = NoCall-behind table s r plain

pub to_byte-NoCall :
    (table : List Bytes) (c : ℕ) (s : Bytes) → NoCall table s → NoCall table (to_byte c s).1
unfolding to_byte NoCall
to_byte-NoCall table c [] plain = tt
to_byte-NoCall table c (x ∷ s) (first, plain) = elim (Bool-cases (x == c)) [
  | inl e ↦ rw (e, to_byte) (first, plain)
  | inr e ↦ rw (e, to_byte) (to_byte-NoCall table c s plain)
]

pub advance-NoCall : (table : List Bytes) (s : Bytes) → NoCall table s → NoCall table (advance s)
unfolding advance NoCall
advance-NoCall table [] plain = tt
advance-NoCall table (c ∷ s) (first, plain) = plain

pub to_matching-split :
    (opener closer count : ℕ) (s inner p : Bytes)
    → to_matching opener closer count s ≡ some (inner, p)
    → (r : Bytes) × (p ≡ closer ∷ r) × (s ≡ inner ++ p)
unfolding to_matching
to_matching-split opener closer count [] inner p e = cc
to_matching-split opener closer count (c ∷ s) inner p e =
    let deeper = if c == opener then count + 1 else if c == closer then count - 1 else count in
    elim (Bool-cases (not (c == opener) && (c == closer && count == 0))) [
      | inl t ↦
          let found = some_inj (rw t at e) in
          let here : c ≡ closer = ground arith in
          let behind = ap (λ (r : Bytes × Bytes). r.1) found in
          (
            s,
            sym behind ∙ ap (λ x. x ∷ s) here,
            behind ∙ ap (λ (r : Bytes × Bytes). r.0 ++ p) found,
          )
      | inr t ↦ elim (Option-cases (to_matching opener closer deeper s)) [
        | inl d ↦ let lost = rw (t, d) at e in cc
        | inr ((more, from), d) ↦
            let found = some_inj (rw (t, d) at e) in
            let (r, there, split) = to_matching-split opener closer deeper s more from d in
            let behind = ap (λ (r : Bytes × Bytes). r.1) found in
            (
              r,
              sym behind ∙ there,
              ap (λ x. c ∷ x) (split ∙ ap (λ x. more ++ x) behind)
                  ∙ ap (λ (r : Bytes × Bytes). r.0 ++ p) found,
            )
      ]
    ]

-- no function is found behind an opening paren
pub handle_function-NoCall :
    (f : Functions) (opener : ℕ) (beg : Bytes) (vars : List Variable)
    → opens_call f.function_table (opener ∷ beg) ≡ false
    → (opener == b'(' || opener == b'{') ≡ true
    → handle_function f opener beg vars ≡ none
unfolding handle_function lookup_function opens_call
handle_function-NoCall f opener beg vars e paren =
    let no : is_function f.function_table beg ≡ false = rw paren at e in
    let none_there : ends_name (name_run beg).1 && is_function f.function_table beg ≡ false =
      rw no (ground arith) in
    rw none_there refl

pub first_NoCall :
    (table : List Bytes) (opener : ℕ) (beg : Bytes)
    → (b'$' == b'$' && opens_call table (opener ∷ beg)) ≡ false
    → opens_call table (opener ∷ beg) ≡ false
first_NoCall table opener beg e = e
