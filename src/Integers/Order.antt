-- ===== src/Integers/Order.antt =====
-- The comparison of two integers as texts against the order of the numbers that they stand for.
use Prim.Native.Nat.{compare}
use gmake.Integers.{memcmp, compare_digits}
use gmake.Prelude.{
  ℕ, suc, ◌+◌, ◌-◌, ◌*◌, ◌≤◌, ◌<◌, ◌≡◌, [], ◌∷◌, Bytes, All, arith, length, ◌==◌, Bool-cases, inl,
  inr,
}

abbrev pub IsDigits : Bytes → Type 0
IsDigits = All (λ c. (b'0' ≤ c) × (c ≤ b'9'))

-- The number that the digits spell behind `n`.
abbrev pub value : ℕ → Bytes → ℕ
value n [] = n
value n (c ∷ s) = value (n * 10 + (c - b'0')) s

-- digits in front of which no zero stands
abbrev pub IsTrimmed : Bytes → Type 0
IsTrimmed [] = Unit
IsTrimmed (c ∷ s) = b'0' < c

-- the same count of digits behind a smaller and a larger number
value-lt :
    (a b : ℕ) (xs ys : Bytes)
    → IsDigits xs
    → IsDigits ys
    → length xs ≡ length ys
    → a < b
    → value a xs < value b ys
value-lt a b [] [] hx hy e h = h
value-lt a b [] (y ∷ ys) hx hy e h = absurd (omega arith)
value-lt a b (x ∷ xs) [] hx hy e h = absurd (omega arith)
value-lt a b (x ∷ xs) (y ∷ ys) (hx, hxs) (hy, hys) e h =
    value-lt (a * 10 + (x - b'0')) (b * 10 + (y - b'0')) xs ys hxs hys (omega arith) (omega arith)

-- more digits behind a positive number
value-lt_longer :
    (b : ℕ) (xs ys : Bytes)
    → IsDigits xs
    → IsDigits ys
    → length xs ≤ length ys
    → 0 < b
    → value 0 xs < value b ys
value-lt_longer b xs [] hx hy le h = value-lt 0 b xs [] hx hy (omega arith) h
value-lt_longer b xs (y ∷ ys) hx (hy, hys) le h = elim (Bool-cases (length xs == suc (length ys))) [
  | inl e ↦ value-lt 0 b xs (y ∷ ys) hx (hy, hys) (ground arith) h
  | inr e ↦ value-lt_longer (b * 10 + (y - b'0')) xs ys hx hys (ground arith) (omega arith)
]

memcmp-value :
    (a : ℕ) (xs ys : Bytes)
    → IsDigits xs
    → IsDigits ys
    → length xs ≡ length ys
    → memcmp xs ys ≡ compare (value a xs) (value a ys)
unfolding memcmp
memcmp-value a [] [] hx hy e = ground arith
memcmp-value a [] (y ∷ ys) hx hy e = absurd (omega arith)
memcmp-value a (x ∷ xs) [] hx hy e = absurd (omega arith)
memcmp-value a (x ∷ xs) (y ∷ ys) (hx, hxs) (hy, hys) e = ground (
  arith,
  memcmp-value (a * 10 + (x - b'0')) xs ys hxs hys,
  value-lt (a * 10 + (x - b'0')) (a * 10 + (y - b'0')) xs ys hxs hys,
  value-lt (a * 10 + (y - b'0')) (a * 10 + (x - b'0')) ys xs hys hxs,
)

pub trimmed-lt :
    (xs ys : Bytes)
    → IsDigits xs
    → IsDigits ys
    → IsTrimmed ys
    → length xs < length ys
    → value 0 xs < value 0 ys
trimmed-lt xs [] hx hy t h = absurd (omega arith)
trimmed-lt xs (y ∷ ys) hx (hy, hys) t h =
    value-lt_longer (0 * 10 + (y - b'0')) xs ys hx hys (omega arith) (omega arith)

pub compare_digits-value :
    (xs ys : Bytes)
    → IsDigits xs
    → IsDigits ys
    → IsTrimmed xs
    → IsTrimmed ys
    → compare_digits xs ys ≡ compare (value 0 xs) (value 0 ys)
unfolding compare_digits
compare_digits-value xs ys hx hy tx ty =
    ground (arith, memcmp-value 0 xs ys hx hy, trimmed-lt xs ys hx hy ty, trimmed-lt ys xs hy hx tx)
