-- ===== src/Assignment/Ends.antt =====
-- The loop of parse_variable_definition in make-4.4/src/variable.c ends, at a place of the line.
use gmake.Assignment.{
  Parsed, unfinished, no_definition, definition, Round, returns, goes_on, end_or, at_blank, at_byte,
  colon_operator, two_byte_flavor, skip_nested, skip_dollar, other_byte, two_bytes, definition_step,
  parse_from, parse_variable_definition,
}
use gmake.Prelude.{
  ℕ, zero, suc, ◌+◌, ◌-◌, ◌≤◌, ◌<◌, inl, inr, ◌&&◌, ◌||◌, [], ◌∷◌, Option, none, some, Bytes, ◌==◌,
  if◌then◌else◌, arith, length, drop, Bool-cases,
}
use gmake.Text.{is_blank, next_token}
use gmake.Text.Tokens.{length-next_token}
use gmake.Variables.{VariableFlavor}

-- a null pointer, or an assignment with the place behind its operator among the last `n` bytes
unfoldable pub EndsWithin : ℕ → Parsed → Type 0
EndsWithin n unfinished = ⊥
EndsWithin n no_definition = Unit
EndsWithin n (definition k flavor s) = length s ≤ n

Shrinks : ℕ → Round → Type 0
unfolding EndsWithin
Shrinks n (returns r) = EndsWithin n r
Shrinks n (goes_on next end) = length next ≤ n

length-drop_le : (k : ℕ) (s : Bytes) → length (drop k s) ≤ length s
length-drop_le zero s = omega arith
length-drop_le (suc k) [] = omega arith
length-drop_le (suc k) (x ∷ s) = omega (arith, length-drop_le k s)

length-skip_nested :
    (opener closer count : ℕ) (s : Bytes) → length (skip_nested opener closer count s) ≤ length s
unfolding skip_nested
length-skip_nested opener closer count [] = omega arith
length-skip_nested opener closer count (x ∷ s) =
    let next = if x == closer then count - 1 else if x == opener then count + 1 else count in
    let later = length-skip_nested opener closer next s in
    elim (Bool-cases (next == 0)) [ inl t ↦ rw t (omega arith) | inr t ↦ rw t (omega arith) ]

colon-EndsWithin : (s : Bytes) (end : ℕ) → EndsWithin (length s) (colon_operator s end)
unfolding colon_operator EndsWithin
colon-EndsWithin s end = elim (Bool-cases (at_byte b'=' s)) [
  | inl t ↦ rw t (length-drop_le 1 s)
  | inr t ↦ elim (Bool-cases (at_byte b':' s)) [
    | inr u ↦ rw t rw u tt
    | inl u ↦ elim (Bool-cases (at_byte b'=' (drop 1 s))) [
      | inl v ↦ rw t rw u rw v (length-drop_le 2 s)
      | inr v ↦ elim (Bool-cases (at_byte b':' (drop 1 s) && at_byte b'=' (drop 2 s))) [
        | inl w ↦ rw t rw u rw v rw w (length-drop_le 3 s)
        | inr w ↦ rw t rw u rw v rw w tt
      ]
    ]
  ]
]

skip_dollar-Shrinks : (s : Bytes) → Shrinks (length s) (skip_dollar s)
unfolding skip_dollar Shrinks
skip_dollar-Shrinks [] = tt
skip_dollar-Shrinks (c ∷ s) = elim (Bool-cases (c == b'(')) [
  | inl t ↦ rw t (omega (arith, length-skip_nested b'(' b')' 1 s))
  | inr t ↦ elim (Bool-cases (c == b'{')) [
    | inl u ↦ rw t rw u (omega (arith, length-skip_nested b'{' b'}' 1 s))
    | inr u ↦ rw t rw u (omega arith)
  ]
]

other_byte-Shrinks : (c : ℕ) (s : Bytes) (end : Option ℕ) → Shrinks (length s) (other_byte c s end)
unfolding other_byte Shrinks
other_byte-Shrinks c s (some end) = tt
other_byte-Shrinks c s none = elim (Bool-cases (c == b'$')) [
  | inl t ↦ rw t (skip_dollar-Shrinks s)
  | inr t ↦ rw t (omega arith)
]

two_bytes-Shrinks :
    (f : Option VariableFlavor) (c : ℕ) (s : Bytes) (here : ℕ) (end : Option ℕ)
    → Shrinks (length s) (two_bytes f c s here end)
unfolding two_bytes Shrinks
two_bytes-Shrinks none c s here end = other_byte-Shrinks c s end
two_bytes-Shrinks (some flavor) c s here end = length-drop_le 1 s

at_blank-Shrinks :
    (s : Bytes) (here : ℕ) (end : Option ℕ) → Shrinks (length s) (at_blank s here end)
unfolding Shrinks
at_blank-Shrinks s here none = length-next_token s
at_blank-Shrinks s here (some end) = tt

definition_step-Shrinks :
    (c : ℕ) (s : Bytes) (here : ℕ) (end : Option ℕ)
    → Shrinks (length s) (definition_step c s here end)
unfolding definition_step Shrinks
definition_step-Shrinks c s here end = elim (Bool-cases (c == b'#' || c == 0)) [
  | inl t ↦ rw t tt
  | inr t ↦ elim (Bool-cases (is_blank c)) [
    | inl u ↦ rw t rw u (at_blank-Shrinks s here end)
    | inr u ↦ elim (Bool-cases (c == b'=')) [
      | inl v ↦ rw t rw u rw v (omega arith)
      | inr v ↦ elim (Bool-cases (c == b':')) [
        | inl w ↦ rw t rw u rw v rw w (colon-EndsWithin s (end_or end here))
        | inr w ↦ elim (Bool-cases (at_byte b'=' s)) [
          | inl x ↦ rw t rw u rw v rw w rw x (two_bytes-Shrinks (two_byte_flavor c) c s here end)
          | inr x ↦ rw t rw u rw v rw w rw x (other_byte-Shrinks c s end)
        ]
      ]
    ]
  ]
]

within : (n m : ℕ) (r : Parsed) → n ≤ m → EndsWithin n r → EndsWithin m r
unfolding EndsWithin
within n m unfinished b e = e
within n m no_definition b e = tt
within n m (definition k flavor s) b e = omega arith

parse_from-EndsWithin :
    (fuel : ℕ) (name p : Bytes) (end : Option ℕ)
    → length p < fuel
    → EndsWithin (length p) (parse_from fuel name p end)
unfolding parse_from Shrinks
parse_from-EndsWithin zero name p end b = absurd (omega arith)
parse_from-EndsWithin (suc fuel) name [] end b = unfold EndsWithin in tt
parse_from-EndsWithin (suc fuel) name (c ∷ s) end b =
    elim (definition_step c s (length name - suc (length s)) end)
        as (λ r.
          Shrinks (length s) r
          → EndsWithin (suc (length s))
              (elim r [ returns r ↦ r | goes_on next later ↦ parse_from fuel name next later ])) [
                | returns r ↦ λ ok. within (length s) (suc (length s)) r (omega arith) ok
                | goes_on next later ↦ λ ok.
                    within (length next) (suc (length s)) (parse_from fuel name next later)
                      (omega arith) (parse_from-EndsWithin fuel name next later (omega arith))
              ]
      (definition_step-Shrinks c s (length name - suc (length s)) end)

-- On every line, parse_variable_definition returns within a round for each byte and one more, with a null pointer or with a
-- place in the line.
pub parse_variable_definition-EndsWithin :
    (str : Bytes) → EndsWithin (length str) (parse_variable_definition str)
unfolding parse_variable_definition
parse_variable_definition-EndsWithin str =
    let name = next_token str in
    within (length name) (length str) (parse_variable_definition str) (length-next_token str)
      (parse_from-EndsWithin (suc (length name)) name name none (omega arith))
