-- ===== src/Strcache/Memory.antt =====
-- What a write into a buffer of make-4.4/src/strcache.c leaves to read.
use gmake.Hash.Rounds.{some_inj}
use gmake.Prelude.{
  ℕ, zero, suc, ◌+◌, ◌≤◌, ◌<◌, ◌≡◌, refl, ap, inl, inr, false, [], ◌∷◌, ◌++◌, some, Bytes, ◌==◌,
  arith, length, take, All, Bool-cases, Option-cases,
}
use gmake.Strcache.{write_at, string_in}

-- A text that has no NUL.
abbrev pub NoNul : Bytes → Type 0
NoNul = All (λ c. (c == 0) ≡ false)

pub write_at-fits :
    (buffer : Bytes) (offset : ℕ) (str : Bytes)
    → offset + length str ≤ length buffer
    → (after : Bytes) × (write_at buffer offset str ≡ some after) × (length after ≡ length buffer)
unfolding write_at
write_at-fits buffer zero [] b = (buffer, refl, refl)
write_at-fits [] zero (c ∷ str) b = absurd (omega arith)
write_at-fits (x ∷ buffer) zero (c ∷ str) b =
    let (rest, e, same) = write_at-fits buffer zero str (omega arith) in
    (c ∷ rest, rw e refl, ap suc same)
write_at-fits [] (suc offset) str b = absurd (omega arith)
write_at-fits (x ∷ buffer) (suc offset) str b =
    let (rest, e, same) = write_at-fits buffer offset str (omega arith) in
    (x ∷ rest, rw e refl, ap suc same)

reads_back_at :
    (buffer : Bytes) (str after : Bytes)
    → NoNul str
    → write_at buffer zero (str ++ (0 ∷ [])) ≡ some after
    → string_in after zero ≡ some str
unfolding write_at string_in
reads_back_at [] [] after plain e = cc
reads_back_at (b ∷ buffer) [] after plain e = let same = some_inj e in rw (← same) refl
reads_back_at [] (c ∷ str) after plain e = cc
reads_back_at (b ∷ buffer) (c ∷ str) after (p, plain) e =
    elim (Option-cases (write_at buffer zero (str ++ (0 ∷ [])))) [
      | inl d ↦ let lost = rw d at e in cc
      | inr (rest, d) ↦
          let same = some_inj (rw d at e) in
          let read = reads_back_at buffer str rest plain d in
          rw (← same) rw (p, string_in) rw (read, string_in) refl
    ]

pub reads_back :
    (buffer : Bytes) (offset : ℕ) (str after : Bytes)
    → NoNul str
    → write_at buffer offset (str ++ (0 ∷ [])) ≡ some after
    → string_in after offset ≡ some str
unfolding write_at string_in
reads_back buffer zero str after plain e = reads_back_at buffer str after plain e
reads_back [] (suc offset) str after plain e = cc
reads_back (b ∷ buffer) (suc offset) str after plain e =
    elim (Option-cases (write_at buffer offset (str ++ (0 ∷ [])))) [
      | inl d ↦ let lost = rw d at e in cc
      | inr (rest, d) ↦
          let same = some_inj (rw d at e) in rw (← same) (reads_back buffer offset str rest plain d)
    ]

kept_first :
    (buffer : Bytes) (offset : ℕ) (str text after : Bytes)
    → write_at buffer offset str ≡ some after
    → string_in buffer zero ≡ some text
    → length text < offset
    → string_in after zero ≡ some text
unfolding write_at string_in
kept_first buffer zero str text after e r b = absurd (omega arith)
kept_first [] (suc offset) str text after e r b = cc
kept_first (x ∷ buffer) (suc offset) str text after e r b =
    elim (Option-cases (write_at buffer offset str)) [
      | inl d ↦ let lost = rw d at e in cc
      | inr (rest, d) ↦
          let same = some_inj (rw d at e) in
          rw (← same) (elim (Bool-cases (x == 0)) [
            | inl z ↦ rw (z, string_in) (rw (z, string_in) at r)
            | inr z ↦ elim (Option-cases (string_in buffer zero)) [
              | inl g ↦ let lost = rw (z, g, string_in) at r in cc
              | inr (more, g) ↦
                  let whole = some_inj (rw (z, g, string_in) at r) in
                  let size = ap length whole in
                  let read = kept_first buffer offset str more rest d g (omega arith) in
                  rw (z, string_in) rw (read, string_in) (ap some whole)
            ]
          ])
    ]

-- a string that ends in front of the write is read as before
pub kept_below :
    (buffer : Bytes) (offset at : ℕ) (str text after : Bytes)
    → write_at buffer offset str ≡ some after
    → string_in buffer at ≡ some text
    → at + length text < offset
    → string_in after at ≡ some text
unfolding write_at string_in
kept_below buffer zero at str text after e r b = absurd (omega arith)
kept_below [] (suc offset) at str text after e r b = cc
kept_below (x ∷ buffer) (suc offset) zero str text after e r b =
    kept_first (x ∷ buffer) (suc offset) str text after e r (omega arith)
kept_below (x ∷ buffer) (suc offset) (suc at) str text after e r b =
    elim (Option-cases (write_at buffer offset str)) [
      | inl d ↦ let lost = rw d at e in cc
      | inr (rest, d) ↦
          let same = some_inj (rw d at e) in
          rw (← same) (kept_below buffer offset at str text rest d r (omega arith))
    ]

pub take-length : (str : Bytes) → take (length str) str ≡ str
take-length [] = refl
take-length (c ∷ str) = ap (λ r. c ∷ r) (take-length str)
