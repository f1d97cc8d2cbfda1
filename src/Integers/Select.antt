-- ===== src/Integers/Select.antt =====
-- Which part `$(intcmp ...)` of make-4.4/src/function.c expands.
use Prim.Native.Nat.{compare, Ordering}
use gmake.Integers.{
  TextInt, Sign, minus, nought, plus, is_digit, skip_zeros, span_digits, compare_digits,
  compare_signs, compare_textints, Parsed, fatal, number, sign_of, is_nil, parse_after_sign,
  parse_token, parse_textint, buffer, select_part, not_less, func_intcmp, intcmp,
}
use gmake.Integers.Order.{IsDigits, IsTrimmed, value, trimmed-lt, compare_digits-value}
use gmake.Prelude.{
  ℕ, ◌+◌, ◌<◌, ◌≡◌, ◌≢◌, ◌↔◌, ◌⊎◌, refl, ◌∙◌, ap, Bool, true, false, not, ◌||◌, ◌&&◌, [], ◌∷◌, ◌++◌,
  Bytes, arith, length, ◌==◌, leb, Bool-cases, inl, inr,
}
use gmake.Text.{next_token}

-- What `parse_textint` returns: the significant digits, and the sign that goes with them.
pub record IsInteger (t : TextInt) : Type 0 where
  pub all_digits : IsDigits t.digits
  pub trimmed : IsTrimmed t.digits
  pub signed : (t.sign ≡ nought) ↔ (t.digits ≡ [])

skip_zeros-head : (s : Bytes) (c : ℕ) (r : Bytes) → skip_zeros s ≡ c ∷ r → c ≢ b'0'
unfolding skip_zeros
skip_zeros-head [] c r h = ground arith
skip_zeros-head (x ∷ s) c r h = ground (arith, skip_zeros-head s c r)

span_digits-IsDigits : (s : Bytes) → IsDigits (span_digits s).0
unfolding span_digits is_digit
span_digits-IsDigits [] = tt
span_digits-IsDigits (c ∷ s) = elim (Bool-cases (leb b'0' c && leb c b'9')) [
  | inl e ↦ rw e (ground arith, span_digits-IsDigits s)
  | inr e ↦ rw e tt
]

span_digits-IsTrimmed :
    (s : Bytes) → ((c : ℕ) (r : Bytes) → s ≡ c ∷ r → c ≢ b'0') → IsTrimmed (span_digits s).0
unfolding span_digits is_digit
span_digits-IsTrimmed [] h = tt
span_digits-IsTrimmed (c ∷ s) h = elim (Bool-cases (leb b'0' c && leb c b'9')) [
  | inl e ↦ let n : c ≢ b'0' = h c s refl in rw e (ground arith)
  | inr e ↦ rw e tt
]

sign_of-signed : (negative : Bool) (d : Bytes) → (sign_of negative d ≡ nought) ↔ (d ≡ [])
unfolding sign_of
sign_of-signed negative [] = (λ _. refl, λ _. refl)
sign_of-signed true (c ∷ s) = (λ h. cc, λ h. cc)
sign_of-signed false (c ∷ s) = (λ h. cc, λ h. cc)

-- all that a result can be
Good : Parsed → Type 0
Good (fatal e) = Unit
Good (number t) = IsInteger t

parse_after_sign-Good : (negative : Bool) (s : Bytes) → Good (parse_after_sign negative s)
unfolding Good parse_after_sign
parse_after_sign-Good negative s =
    let parts = span_digits (skip_zeros s) in
    elim (Bool-cases (length parts.1 == length s || not (is_nil (next_token parts.1)))) [
      | inl e ↦ rw e tt
      | inr e ↦ rw e (record {
        all_digits = span_digits-IsDigits (skip_zeros s);
        trimmed = span_digits-IsTrimmed (skip_zeros s) (skip_zeros-head s);
        signed = sign_of-signed negative (span_digits (skip_zeros s)).0;
      })
    ]

parse_token-Good : (s : Bytes) → Good (parse_token s)
unfolding Good parse_token
parse_token-Good [] = tt
parse_token-Good (c ∷ s) = elim (Bool-cases (c == b'-')) [
  | inl e ↦ rw e (parse_after_sign-Good true s)
  | inr e ↦ elim (Bool-cases (c == b'+')) [
    | inl d ↦ rw (e, d) (parse_after_sign-Good false s)
    | inr d ↦ rw (e, d) (parse_after_sign-Good false (c ∷ s))
  ]
]

parse_textint-IsInteger : (s : Bytes) (t : TextInt) → parse_textint s ≡ number t → IsInteger t
unfolding Good parse_textint
parse_textint-IsInteger s t h = let g = parse_token-Good (next_token s) in rw h at g

-- the integer that a sign and digits stand for, as a difference of two numbers
abbrev pub gain : TextInt → ℕ
gain t = elim t.sign [ plus ↦ value 0 t.digits | _ ↦ 0 ]

abbrev pub loss : TextInt → ℕ
loss t = elim t.sign [ minus ↦ value 0 t.digits | _ ↦ 0 ]

-- the order of the integers
abbrev pub integer_order : TextInt → TextInt → Ordering
integer_order l r = compare (gain l + loss r) (gain r + loss l)

trimmed-positive : (s : Bytes) → IsDigits s → IsTrimmed s → s ≢ [] → 0 < value 0 s
trimmed-positive [] hd ht n = absurd (n refl)
trimmed-positive (c ∷ s) hd ht n = trimmed-lt [] (c ∷ s) tt hd ht (omega arith)

positive : (t : TextInt) → IsInteger t → t.sign ≢ nought → 0 < value 0 t.digits
positive t h n = trimmed-positive t.digits h.all_digits h.trimmed (λ e. n (h.signed.1 e))

nothing : (t : TextInt) → IsInteger t → t.sign ≡ nought → value 0 t.digits ≡ 0
nothing t h e = ap (value 0) (h.signed.0 e)

digits-order :
    (l r : TextInt)
    → IsInteger l
    → IsInteger r
    → compare_digits l.digits r.digits ≡ compare (value 0 l.digits) (value 0 r.digits)
digits-order l r hl hr =
    compare_digits-value l.digits r.digits hl.all_digits hr.all_digits hl.trimmed hr.trimmed

Order : TextInt → TextInt → Type 0
Order l r =
    (l.sign ≢ minus ⊎ r.sign ≢ minus → compare_textints l r ≡ integer_order l r)
    × (l.sign ≡ minus → r.sign ≡ minus → compare_textints l r ≡ integer_order r l)

signs-Order :
    (a b : Sign) (x y : Bytes)
    → (let l : TextInt = record { sign = a; digits = x } in
        let r : TextInt = record { sign = b; digits = y } in IsInteger l → IsInteger r → Order l r)
unfolding Order compare_textints compare_signs
signs-Order minus minus x y hl hr = (
  λ h. elim h [ inl p ↦ absurd (p refl) | inr p ↦ absurd (p refl) ],
  λ _ _. ground (arith, digits-order _ _ hl hr),
)
signs-Order minus nought x y hl hr =
    (λ _. ground (arith, positive _ hl (λ e. cc), nothing _ hr refl), λ _ e. cc)
signs-Order minus plus x y hl hr =
    (λ _. ground (arith, positive _ hl (λ e. cc), positive _ hr (λ e. cc)), λ _ e. cc)
signs-Order nought minus x y hl hr =
    (λ _. ground (arith, nothing _ hl refl, positive _ hr (λ e. cc)), λ e. cc)
signs-Order nought nought x y hl hr =
    (λ _. ground (arith, digits-order _ _ hl hr, nothing _ hl refl, nothing _ hr refl), λ e. cc)
signs-Order nought plus x y hl hr =
    (λ _. ground (arith, nothing _ hl refl, positive _ hr (λ e. cc)), λ e. cc)
signs-Order plus minus x y hl hr =
    (λ _. ground (arith, positive _ hl (λ e. cc), positive _ hr (λ e. cc)), λ e. cc)
signs-Order plus nought x y hl hr =
    (λ _. ground (arith, positive _ hl (λ e. cc), nothing _ hr refl), λ e. cc)
signs-Order plus plus x y hl hr = (λ _. ground (arith, digits-order _ _ hl hr), λ e. cc)

-- Of two texts that are integers, the comparison is the order of the integers unless both are
-- negative; of two negative ones, it is the order of the integers turned round.
pub compare_textints-order :
    (s t : Bytes) (l r : TextInt)
    → parse_textint s ≡ number l
    → parse_textint t ≡ number r
    → (l.sign ≢ minus ⊎ r.sign ≢ minus → compare_textints l r ≡ integer_order l r)
      × (l.sign ≡ minus → r.sign ≡ minus → compare_textints l r ≡ integer_order r l)
compare_textints-order s t l r hs ht =
    unfold Order in
    signs-Order l.sign r.sign l.digits r.digits (parse_textint-IsInteger s l hs)
      (parse_textint-IsInteger t r ht)

abbrev pub pick {ℓ} : {A : Type ℓ} → Ordering → A → A → A → A
pick Ordering.lt x y z = x
pick Ordering.eq x y z = y
pick Ordering.gt x y z = z

three_parts :
    (expand_argument : Bytes → Bytes) (o : Bytes) (l : TextInt) (cmp : Ordering) (x y z : Bytes)
    → select_part expand_argument o l cmp (x ∷ y ∷ z ∷ []) ≡ o ++ expand_argument (pick cmp x y z)
unfolding select_part not_less
three_parts expand_argument o l Ordering.lt x y z = refl
three_parts expand_argument o l Ordering.eq x y z = refl
three_parts expand_argument o l Ordering.gt x y z = refl

-- `$(intcmp lhs,rhs,x,y,z)` of two integers that are not both negative expands x, y or z, as the
-- first is less than, equal to or greater than the second; of two negative ones it expands x or z
-- the wrong way round.
pub func_intcmp-order :
    (expand_argument : Bytes → Bytes) (o lhs rhs x y z : Bytes) (l r : TextInt)
    → parse_textint (expand_argument lhs) ≡ number l
    → parse_textint (expand_argument rhs) ≡ number r
    → (l.sign ≢ minus ⊎ r.sign ≢ minus
        → func_intcmp expand_argument o lhs rhs (x ∷ y ∷ z ∷ [])
          ≡ buffer (o ++ expand_argument (pick (integer_order l r) x y z)))
      × (l.sign ≡ minus
          → r.sign ≡ minus
          → func_intcmp expand_argument o lhs rhs (x ∷ y ∷ z ∷ [])
            ≡ buffer (o ++ expand_argument (pick (integer_order r l) x y z)))
unfolding func_intcmp intcmp
func_intcmp-order expand_argument o lhs rhs x y z l r hl hr =
    let order = compare_textints-order (expand_argument lhs) (expand_argument rhs) l r hl hr in
    let chosen = three_parts expand_argument o l (compare_textints l r) x y z in
    (
      λ h. rw (hl, hr) (ap buffer (chosen ∙ rw (order.0 h))),
      λ a b. rw (hl, hr) (ap buffer (chosen ∙ rw (order.1 a b))),
    )
