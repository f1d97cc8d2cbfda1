-- ===== src/Assignment/Lines.antt =====
-- The lines that parse_variable_definition of make-4.4/src/variable.c reads as assignments.
use gmake.Assignment.Forms.{
  Operator, equals, colon_equals, double_colon, triple_colon, plus, question, bang, operator_text,
  operator_flavor, is_plain, IsName, end_name, plain, dollar, parens, braces, operator_round,
  name_rounds,
}
use gmake.Assignment.{definition, goes_on, definition_step, parse_from, parse_variable_definition}
use gmake.Prelude.{
  ℕ, zero, suc, ◌-◌, ◌<◌, ◌≡◌, ◌≢◌, refl, ◌∙◌, ap, true, false, [], ◌∷◌, ◌++◌, none, some, Bytes,
  arith, length, length-append, All,
}
use gmake.Text.{is_space, is_blank, next_token}

next_token-spaces :
    (lead s : Bytes) → All (λ c. is_space c ≡ true) lead → next_token (lead ++ s) ≡ next_token s
unfolding next_token
next_token-spaces [] s spaces = refl
next_token-spaces (c ∷ lead) s (e, spaces) = rw e (next_token-spaces lead s spaces)

next_token-blanks :
    (gap s : Bytes) → All (λ c. is_blank c ≡ true) gap → next_token (gap ++ s) ≡ next_token s
unfolding next_token is_space
next_token-blanks [] s blanks = refl
next_token-blanks (c ∷ gap) s (e, blanks) = rw e (next_token-blanks gap s blanks)

next_token-operator :
    (op : Operator) (v : Bytes) → next_token (operator_text op ++ v) ≡ operator_text op ++ v
unfolding next_token is_space is_blank
next_token-operator equals v = refl
next_token-operator colon_equals v = refl
next_token-operator double_colon v = refl
next_token-operator triple_colon v = refl
next_token-operator plus v = refl
next_token-operator question v = refl
next_token-operator bang v = refl

next_token-name : (n r : Bytes) → IsName n → n ≢ [] → next_token (n ++ r) ≡ n ++ r
unfolding next_token is_space is_blank
next_token-name n r end_name filled = absurd (filled refl)
next_token-name n r (plain {c} {s} e named) filled =
    let solid : is_space c ≡ false = unfold is_plain is_space is_blank in ground arith in
    rw solid refl
next_token-name n r (dollar e d named) filled = refl
next_token-name n r (parens nested named) filled = refl
next_token-name n r (braces nested named) filled = refl

blank_step :
    (c here : ℕ) (s : Bytes)
    → is_blank c ≡ true
    → definition_step c s here none ≡ goes_on (next_token s) (some here)
unfolding definition_step is_blank
blank_step c here s e = ground arith

blank_round :
    (fuel c : ℕ) (name s : Bytes)
    → is_blank c ≡ true
    → parse_from (suc fuel) name (c ∷ s) none
      ≡ parse_from fuel name (next_token s) (some (length name - suc (length s)))
unfolding parse_from
blank_round fuel c name s e = rw (blank_step c (length name - suc (length s)) s e, parse_from) refl

-- the rounds behind the name
gap_rounds :
    (gap : Bytes) (op : Operator) (v name : Bytes) (fuel : ℕ)
    → All (λ c. is_blank c ≡ true) gap
    → length (gap ++ (operator_text op ++ v)) < suc fuel
    → parse_from (suc fuel) name (gap ++ (operator_text op ++ v)) none
      ≡ definition (length name - length (gap ++ (operator_text op ++ v))) (operator_flavor op) v
gap_rounds [] op v name fuel blanks b = operator_round op fuel name v none
gap_rounds (c ∷ gap) op v name zero blanks b = absurd (omega arith)
gap_rounds (c ∷ gap) op v name (suc fuel) (e, blanks) b =
    let rest = gap ++ (operator_text op ++ v) in
    let here = length name - suc (length rest) in
    let next = next_token-blanks gap (operator_text op ++ v) blanks ∙ next_token-operator op v in
    blank_round (suc fuel) c name rest e
    ∙ ap (λ p. parse_from (suc fuel) name p (some here)) next
    ∙ operator_round op fuel name v (some here)

-- A line of whitespace, a name that is not empty, blanks and an operator is an assignment, whatever stands behind it: the
-- length is that of the name, the flavor that of the operator, and the place the one behind the operator. A name is made of
-- bytes that are no whitespace, operator or comment, of `$` with a byte, and of references whose parens or braces pair up.
pub parse_variable_definition-assignment :
    (lead n gap v : Bytes) (op : Operator)
    → All (λ c. is_space c ≡ true) lead
    → IsName n
    → n ≢ []
    → All (λ c. is_blank c ≡ true) gap
    → parse_variable_definition (lead ++ (n ++ (gap ++ (operator_text op ++ v))))
      ≡ definition (length n) (operator_flavor op) v
unfolding parse_variable_definition
parse_variable_definition-assignment lead n gap v op spaces named filled blanks =
    let rest = gap ++ (operator_text op ++ v) in
    let name = n ++ rest in
    let start : next_token (lead ++ name) ≡ name =
      next_token-spaces lead name spaces ∙ next_token-name n rest named filled in
    let (left, more, run) = name_rounds n rest name (suc (length name)) named (omega arith) in
    let size = length-append n rest in
    let place : length name - length rest ≡ length n = omega arith in
    ap (λ p. parse_from (suc (length p)) p p none) start
    ∙ run
    ∙ gap_rounds gap op v name left blanks more
    ∙ ap (λ k. definition k (operator_flavor op) v) place
