-- ===== src/Integers.antt =====
-- make-4.4/src/function.c: parse_textint and func_intcmp, integers of any size as texts. Expansion of
-- an argument (make-4.4/src/expand.c) is the section's parameter.
pub mod Order
pub mod Select
use Prim.Native.Nat.{compare, Ordering}
use gmake.Prelude.{
  ℕ, Bool, true, false, not, ◌&&◌, ◌||◌, List, [], ◌∷◌, ◌++◌, Option, none, some, Bytes, codes, leb,
  ◌==◌, if◌then◌else◌, length,
}
use gmake.Text.{next_token}

-- `*sign`: -1, 0 or 1
pub data Sign : Type 0 where
  minus nought plus : Sign

-- `*sign`, and the text from `*numstart` up to the returned place
pub record TextInt : Type 0 where
  pub sign : Sign
  pub digits : Bytes

-- the calls of `fatal`
pub data NumberError : Type 0 where
  empty_value not_numeric : NumberError

pub data Parsed : Type 0 where
  fatal : NumberError → Parsed
  number : TextInt → Parsed

unfoldable pub is_digit : ℕ → Bool
is_digit c = leb b'0' c && leb c b'9'

-- `while (*p == '0') p++;`
unfoldable pub skip_zeros : Bytes → Bytes
skip_zeros [] = []
skip_zeros (c ∷ s) = if c == b'0' then skip_zeros s else c ∷ s

-- `while (ISDIGIT (*p)) ++p;`: the digits, and the place behind them
unfoldable pub span_digits : Bytes → Bytes × Bytes
unfolding is_digit
span_digits [] = ([], [])
span_digits (c ∷ s) = let r = span_digits s in if is_digit c then (c ∷ r.0, r.1) else ([], c ∷ s)

unfoldable pub is_nil : Bytes → Bool
is_nil [] = true
is_nil (c ∷ s) = false

-- `negative ? -nonzero : nonzero`
unfoldable pub sign_of : Bool → Bytes → Sign
sign_of negative [] = nought
sign_of true (c ∷ s) = minus
sign_of false (c ∷ s) = plus

-- from `after_sign` on; no byte between the sign and the end of the number is not an error only if
-- `after_number` has moved
unfoldable pub parse_after_sign : Bool → Bytes → Parsed
unfolding skip_zeros span_digits is_nil sign_of
parse_after_sign negative after_sign =
    let numstart = skip_zeros after_sign in
    let (digits, after_number) = span_digits numstart in
    if length after_number == length after_sign || not (is_nil (next_token after_number))
    then fatal not_numeric
    else number (record { sign = sign_of negative digits; digits = digits })

unfoldable pub parse_token : Bytes → Parsed
unfolding parse_after_sign
parse_token [] = fatal empty_value
parse_token (c ∷ s) =
    if c == b'-'
    then parse_after_sign true s
    else if c == b'+'
    then parse_after_sign false s
    else parse_after_sign false (c ∷ s)

unfoldable pub parse_textint : Bytes → Parsed
unfolding parse_token
parse_textint s = parse_token (next_token s)

-- `lsign - rsign`, by its sign
unfoldable pub compare_signs : Sign → Sign → Ordering
compare_signs minus minus = Ordering.eq
compare_signs minus nought = Ordering.lt
compare_signs minus plus = Ordering.lt
compare_signs nought minus = Ordering.gt
compare_signs nought nought = Ordering.eq
compare_signs nought plus = Ordering.lt
compare_signs plus minus = Ordering.gt
compare_signs plus nought = Ordering.gt
compare_signs plus plus = Ordering.eq

-- `memcmp (lnum, rnum, llen)` of texts of one length
unfoldable pub memcmp : Bytes → Bytes → Ordering
memcmp [] ys = Ordering.eq
memcmp (x ∷ xs) [] = Ordering.gt
memcmp (x ∷ xs) (y ∷ ys) =
    let rest = memcmp xs ys in
    elim (compare x y) [
      | Ordering.lt ↦ Ordering.lt
      | Ordering.eq ↦ rest
      | Ordering.gt ↦ Ordering.gt
    ]

-- the comparison of lengths, and of bytes where they agree
unfoldable pub compare_digits : Bytes → Bytes → Ordering
unfolding memcmp
compare_digits l r = elim (compare (length l) (length r)) [
  | Ordering.lt ↦ Ordering.lt
  | Ordering.eq ↦ memcmp l r
  | Ordering.gt ↦ Ordering.gt
]

-- `cmp`
unfoldable pub compare_textints : TextInt → TextInt → Ordering
unfolding compare_signs compare_digits
compare_textints l r = elim (compare_signs l.sign r.sign) [
  | Ordering.lt ↦ Ordering.lt
  | Ordering.eq ↦ compare_digits l.digits r.digits
  | Ordering.gt ↦ Ordering.gt
]

-- the text put out for a number with no part to expand; `lnum - !lsign` is the last zero
unfoldable pub print_textint : TextInt → Bytes
print_textint l = elim l.sign [
  | minus ↦ codes "-" ++ l.digits
  | nought ↦ codes "0"
  | plus ↦ l.digits
]

pub data Expanded : Type 0 where
  fatal : NumberError → Expanded
  buffer : Bytes → Expanded

module _ (expand_argument : Bytes → Bytes) where
  -- the rest of `argv`, from the part for "greater or equal" on
  unfoldable pub not_less : Bytes → Ordering → List Bytes → Bytes
  not_less o cmp [] = o
  not_less o cmp (eq_part ∷ []) = o ++ expand_argument eq_part
  not_less o Ordering.gt (eq_part ∷ gt_part ∷ _) = o ++ expand_argument gt_part
  not_less o cmp (eq_part ∷ gt_part ∷ _) = o ++ expand_argument eq_part

  unfoldable pub select_part : Bytes → TextInt → Ordering → List Bytes → Bytes
  unfolding print_textint not_less
  select_part o l Ordering.eq [] = o ++ print_textint l
  select_part o l cmp [] = o
  select_part o l Ordering.lt (lt_part ∷ parts) = o ++ expand_argument lt_part
  select_part o l cmp (lt_part ∷ parts) = not_less o cmp parts

  unfoldable pub intcmp : Bytes → Parsed → Parsed → List Bytes → Expanded
  unfolding compare_textints select_part
  intcmp o (fatal e) r parts = fatal e
  intcmp o (number l) (fatal e) parts = fatal e
  intcmp o (number l) (number r) parts = buffer (select_part o l (compare_textints l r) parts)

  -- the first two arguments, and the parts
  unfoldable pub func_intcmp : Bytes → Bytes → Bytes → List Bytes → Expanded
  unfolding parse_textint intcmp
  func_intcmp o lhs rhs parts =
      intcmp o (parse_textint (expand_argument lhs)) (parse_textint (expand_argument rhs)) parts
