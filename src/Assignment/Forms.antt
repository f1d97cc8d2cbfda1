-- ===== src/Assignment/Forms.antt =====
-- The names and operators of an assignment, as the loop of parse_variable_definition in make-4.4/src/variable.c reads them.
use gmake.Assignment.{
  definition, goes_on, end_or, colon_operator, two_byte_flavor, skip_nested, skip_dollar,
  other_byte, two_bytes, definition_step, parse_from,
}
use gmake.Prelude.{
  ℕ, zero, suc, ◌+◌, ◌-◌, ◌<◌, ◌≡◌, refl, ◌∙◌, ap, ◌⊎◌, inl, inr, Bool, true, false, not, ◌||◌, [],
  ◌∷◌, ◌++◌, append_assoc, Option, none, Bytes, ◌==◌, if◌then◌else◌, arith, length, length-append,
}
use gmake.Text.{is_space, is_blank}
use gmake.Variables.{
  VariableFlavor, f_simple, f_recursive, f_expand, f_append, f_conditional, f_shell,
}

pub data Operator : Type 0 where
  equals colon_equals double_colon triple_colon plus question bang : Operator

abbrev pub operator_text : Operator → Bytes
operator_text equals = b'=' ∷ []
operator_text colon_equals = b':' ∷ b'=' ∷ []
operator_text double_colon = b':' ∷ b':' ∷ b'=' ∷ []
operator_text triple_colon = b':' ∷ b':' ∷ b':' ∷ b'=' ∷ []
operator_text plus = b'+' ∷ b'=' ∷ []
operator_text question = b'?' ∷ b'=' ∷ []
operator_text bang = b'!' ∷ b'=' ∷ []

abbrev pub operator_flavor : Operator → VariableFlavor
operator_flavor equals = f_recursive
operator_flavor colon_equals = f_simple
operator_flavor double_colon = f_simple
operator_flavor triple_colon = f_expand
operator_flavor plus = f_append
operator_flavor question = f_conditional
operator_flavor bang = f_shell

-- a byte that has no meaning in a name
unfoldable pub is_plain : ℕ → Bool
unfolding is_space
is_plain c = not (
    is_space c
    || c == 0
    || c == b'#'
    || c == b'='
    || c == b':'
    || c == b'$'
    || c == b'+'
    || c == b'?'
    || c == b'!')

-- parens or braces in pairs
pub data Nested (opener closer : ℕ) : Bytes → Type 0 where
  none_open : Nested opener closer []
  byte :
      {x : ℕ} {s : Bytes}
      → (x == opener) ≡ false
      → (x == closer) ≡ false
      → Nested opener closer s
      → Nested opener closer (x ∷ s)
  group :
      {s t : Bytes}
      → Nested opener closer s
      → Nested opener closer t
      → Nested opener closer (opener ∷ s ++ closer ∷ t)

-- a name: plain bytes, `$` with a byte, and references in parens or braces
pub data IsName : Bytes → Type 0 where
  end_name : IsName []
  plain : {c : ℕ} {s : Bytes} → is_plain c ≡ true → IsName s → IsName (c ∷ s)
  dollar :
      {c : ℕ} {s : Bytes}
      → (c == b'(') ≡ false
      → (c == b'{') ≡ false
      → IsName s
      → IsName (b'$' ∷ c ∷ s)
  parens : {t s : Bytes} → Nested b'(' b')' t → IsName s → IsName (b'$' ∷ b'(' ∷ t ++ b')' ∷ s)
  braces : {t s : Bytes} → Nested b'{' b'}' t → IsName s → IsName (b'$' ∷ b'{' ∷ t ++ b'}' ∷ s)

pub operator_round :
    (op : Operator) (fuel : ℕ) (name v : Bytes) (end : Option ℕ)
    → parse_from (suc fuel) name (operator_text op ++ v) end
      ≡ definition
          (end_or end (length name - length (operator_text op ++ v)))
          (operator_flavor op)
          v
unfolding parse_from definition_step two_bytes two_byte_flavor colon_operator is_blank
operator_round equals fuel name v end = refl
operator_round colon_equals fuel name v end = refl
operator_round double_colon fuel name v end = refl
operator_round triple_colon fuel name v end = refl
operator_round plus fuel name v end = refl
operator_round question fuel name v end = refl
operator_round bang fuel name v end = refl

-- the count behind a byte
abbrev next_count : ℕ → ℕ → ℕ → ℕ → ℕ
next_count opener closer count x =
    if x == closer then count - 1 else if x == opener then count + 1 else count

skip_further :
    (opener closer count x m : ℕ) (s : Bytes)
    → next_count opener closer count x ≡ suc m
    → skip_nested opener closer count (x ∷ s) ≡ skip_nested opener closer (suc m) s
unfolding skip_nested
skip_further opener closer count x m s e =
    let some_left : (suc m == 0) ≡ false = ground arith in rw e rw some_left refl

skip_nested-Nested :
    (opener closer n : ℕ) (s r : Bytes)
    → (opener == closer) ≡ false
    → Nested opener closer s
    → skip_nested opener closer (suc n) (s ++ r) ≡ skip_nested opener closer (suc n) r
skip_nested-Nested opener closer n s r e none_open = refl
skip_nested-Nested opener closer n (x ∷ s) r e (byte d c nested) =
    skip_further opener closer (suc n) x n (s ++ r) (rw c rw d refl)
    ∙ skip_nested-Nested opener closer n s r e nested
skip_nested-Nested opener closer n s r e (group {s = a} {t = b} first second) =
    let up : next_count opener closer (suc n) opener ≡ suc (suc n) = ground arith in
    let down : next_count opener closer (suc (suc n)) closer ≡ suc n = ground arith in
    skip_further opener closer (suc n) opener (suc n) ((a ++ closer ∷ b) ++ r) up
    ∙ ap (skip_nested opener closer (suc (suc n))) (append_assoc a (closer ∷ b) r)
    ∙ skip_nested-Nested opener closer (suc n) a (closer ∷ b ++ r) e first
    ∙ skip_further opener closer (suc (suc n)) closer n (b ++ r) down
    ∙ skip_nested-Nested opener closer n b r e second

skip_closed :
    (opener closer : ℕ) (t r : Bytes)
    → (opener == closer) ≡ false
    → Nested opener closer t
    → skip_nested opener closer 1 (t ++ closer ∷ r) ≡ r
skip_closed opener closer t r e nested =
    let last : skip_nested opener closer 1 (closer ∷ r) ≡ r = unfold skip_nested in ground arith in
    skip_nested-Nested opener closer 0 t (closer ∷ r) e nested ∙ last

-- one round of the loop
parse_step :
    (fuel c : ℕ) (name s next : Bytes)
    → definition_step c s (length name - suc (length s)) none ≡ goes_on next none
    → parse_from (suc fuel) name (c ∷ s) none ≡ parse_from fuel name next none
unfolding parse_from
parse_step fuel c name s next e = rw (e, parse_from) refl

plain_step :
    (c here : ℕ) (s : Bytes) → is_plain c ≡ true → definition_step c s here none ≡ goes_on s none
unfolding definition_step is_plain is_blank is_space two_bytes two_byte_flavor other_byte
plain_step c here s e = ground arith

dollar_step :
    (c here : ℕ) (s : Bytes)
    → (c == b'(') ≡ false
    → (c == b'{') ≡ false
    → definition_step b'$' (c ∷ s) here none ≡ goes_on s none
unfolding definition_step is_blank two_bytes two_byte_flavor other_byte skip_dollar
dollar_step c here s e d = ground arith

reference_step :
    (opener closer : ℕ)
    → (((opener ≡ b'(') × (closer ≡ b')')) ⊎ ((opener ≡ b'{') × (closer ≡ b'}')))
    → (s next : Bytes) → skip_nested opener closer 1 s ≡ next
    → (here : ℕ) → definition_step b'$' (opener ∷ s) here none ≡ goes_on next none
unfolding definition_step is_blank two_bytes two_byte_flavor other_byte skip_dollar
reference_step opener closer (inl (e, d)) s next run here =
    rw e (ap (λ p. goes_on p none) (rw (e, d) at run))
reference_step opener closer (inr (e, d)) s next run here =
    rw e (ap (λ p. goes_on p none) (rw (e, d) at run))

-- the rounds of a name
pub name_rounds :
    (n r name : Bytes) (fuel : ℕ)
    → IsName n
    → length (n ++ r) < fuel
    → (left : ℕ) × (length r < suc left)
      × (parse_from fuel name (n ++ r) none ≡ parse_from (suc left) name r none)
name_rounds n r name zero named b = absurd (omega arith)
name_rounds n r name (suc fuel) end_name b = (fuel, b, refl)
name_rounds n r name (suc fuel) (plain {c} {s} e named) b =
    let (left, more, run) = name_rounds s r name fuel named (omega arith) in
    (left, more, parse_step fuel c name (s ++ r) (s ++ r) (plain_step c _ (s ++ r) e) ∙ run)
name_rounds n r name (suc fuel) (dollar {c} {s} e d named) b =
    let (left, more, run) = name_rounds s r name fuel named (omega arith) in
    (
      left,
      more,
      parse_step fuel b'$' name (c ∷ s ++ r) (s ++ r) (dollar_step c _ (s ++ r) e d) ∙ run,
    )
name_rounds n r name (suc fuel) (parens {t} {s} nested named) b =
    let shape = append_assoc t (b')' ∷ s) r in
    let size = ap length shape in
    let parts = length-append t (b')' ∷ s ++ r) in
    let (left, more, run) = name_rounds s r name fuel named (omega arith) in
    let closed = skip_closed b'(' b')' t (s ++ r) refl nested in
    let step =
      reference_step b'(' b')' (inl (refl, refl)) ((t ++ b')' ∷ s) ++ r) (s ++ r)
        (ap (skip_nested b'(' b')' 1) shape ∙ closed) in
    (left, more, parse_step fuel b'$' name (b'(' ∷ (t ++ b')' ∷ s) ++ r) (s ++ r) (step _) ∙ run)
name_rounds n r name (suc fuel) (braces {t} {s} nested named) b =
    let shape = append_assoc t (b'}' ∷ s) r in
    let size = ap length shape in
    let parts = length-append t (b'}' ∷ s ++ r) in
    let (left, more, run) = name_rounds s r name fuel named (omega arith) in
    let closed = skip_closed b'{' b'}' t (s ++ r) refl nested in
    let step =
      reference_step b'{' b'}' (inr (refl, refl)) ((t ++ b'}' ∷ s) ++ r) (s ++ r)
        (ap (skip_nested b'{' b'}' 1) shape ∙ closed) in
    (left, more, parse_step fuel b'$' name (b'{' ∷ (t ++ b'}' ∷ s) ++ r) (s ++ r) (step _) ∙ run)
