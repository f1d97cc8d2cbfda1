-- ===== src/Mword/Loop.antt =====
-- The loop of get_next_mword of make-4.4/src/read.c over the bytes of a word.
use gmake.Mword.{skip_reference, Step, done_word, go, dollar, word_step, word_from, skip_one, head}
use gmake.Prelude.{
  ℕ, zero, suc, ◌-◌, ◌≤◌, ◌<◌, ◌≡◌, ◌≢◌, refl, Bool, false, ◌||◌, ◌⊎◌, [], ◌∷◌, Bytes, length,
  arith, inl, inr,
}
use gmake.Text.{is_space}

length-skip_reference :
    (opener closer count : ℕ) (p : Bytes) → length (skip_reference opener closer count p) ≤ length p
unfolding skip_reference
length-skip_reference opener closer count [] = omega arith
length-skip_reference opener closer count (c ∷ p) = ground (
  arith,
  length-skip_reference opener closer (suc count) p,
  length-skip_reference opener closer (count - 1) p,
  length-skip_reference opener closer count p,
)

-- a round goes on with fewer bytes
Shorter : ℕ → Step → Type 0
Shorter n done_word = Unit
Shorter n (go v rest) = length rest < n

dollar-Shorter : (p : Bytes) → Shorter (suc (length p)) (dollar p)
unfolding Shorter dollar
dollar-Shorter [] = omega arith
dollar-Shorter (c ∷ p) =
    ground (arith, length-skip_reference b'(' b')' 0 p, length-skip_reference b'{' b'}' 0 p)

length-skip_one : (p : Bytes) → length (skip_one p) ≤ length p
unfolding skip_one
length-skip_one [] = omega arith
length-skip_one (c ∷ p) = omega arith

word_step-Shorter : (s : Bytes) → Shorter (length s) (word_step s)
unfolding Shorter word_step
word_step-Shorter [] = tt
word_step-Shorter (c ∷ p) = ground (arith, dollar-Shorter p, length-skip_one p)

Step-cases : (s : Step) → (s ≡ done_word) ⊎ ((v : Bool) × (rest : Bytes) × (s ≡ go v rest))
Step-cases done_word = inl refl
Step-cases (go v rest) = inr (v, rest, refl)

step_shorter : (s rest : Bytes) (v : Bool) → word_step s ≡ go v rest → length rest < length s
unfolding Shorter
step_shorter s rest v e = let h = word_step-Shorter s in rw e at h

-- more rounds than bytes change nothing
word_from-enough :
    (f g : ℕ) (v : Bool) (s : Bytes)
    → length s < f
    → length s < g
    → word_from f v s ≡ word_from g v s
unfolding word_from
word_from-enough zero g v s h k = absurd (omega arith)
word_from-enough (suc f) zero v s h k = absurd (omega arith)
word_from-enough (suc f) (suc g) v s h k = elim (Step-cases (word_step s)) [
  | inl e ↦ rw (e, word_from) refl
  | inr (w, rest, e) ↦
      let shorter = step_shorter s rest w e in
      rw (e, word_from) (word_from-enough f g (v || w) rest (omega arith) (omega arith))
]

length-word_from : (f : ℕ) (v : Bool) (s : Bytes) → length (word_from f v s).1 ≤ length s
unfolding word_from
length-word_from zero v s = omega arith
length-word_from (suc f) v s = elim (Step-cases (word_step s)) [
  | inl e ↦ rw (e, word_from) (omega arith)
  | inr (w, rest, e) ↦
      let shorter = step_shorter s rest w e in
      rw (e, word_from) (omega (arith, length-word_from f (v || w) rest))
]

IsGo : Step → Type 0
IsGo done_word = ⊥
IsGo (go v rest) = Unit

dollar-IsGo : (p : Bytes) → IsGo (dollar p)
unfolding IsGo dollar
dollar-IsGo [] = tt
dollar-IsGo (c ∷ p) = ground arith

-- bytes at which a word starts
pub record Starts (c : ℕ) (p : Bytes) : Type 0 where
  pub solid : is_space c ≡ false
  pub not_equals : c ≢ b'='
  pub not_colon : c ≢ b':'
  pub not_ampersand : c ≡ b'&' → head p ≢ b':'
  pub not_assign : c ≡ b'+' ⊎ c ≡ b'?' → head p ≢ b'='

word_step-IsGo : (c : ℕ) (p : Bytes) → Starts c p → IsGo (word_step (c ∷ p))
unfolding IsGo word_step
word_step-IsGo c p h =
    ground (arith, dollar-IsGo p, h.solid, h.not_equals, h.not_colon, h.not_ampersand, h.not_assign)

-- A word that is found holds a byte at least.
pub Starts-shorter :
    (f c : ℕ) (p : Bytes) → Starts c p → length (word_from (suc f) false (c ∷ p)).1 < suc (length p)
unfolding IsGo word_from
Starts-shorter f c p h = elim (Step-cases (word_step (c ∷ p))) [
  | inl e ↦ let g = word_step-IsGo c p h in absurd (rw e at g)
  | inr (w, rest, e) ↦
      let shorter = step_shorter (c ∷ p) rest w e in
      rw (e, word_from) (omega (arith, length-word_from f w rest))
]

word_from-ends :
    (f : ℕ) (v : Bool) (s : Bytes) → length s < f → word_step (word_from f v s).1 ≡ done_word
unfolding word_from
word_from-ends zero v s h = absurd (omega arith)
word_from-ends (suc f) v s h = elim (Step-cases (word_step s)) [
  | inl e ↦ rw (e, word_from) e
  | inr (w, rest, e) ↦
      let shorter = step_shorter s rest w e in
      rw (e, word_from) (word_from-ends f (v || w) rest (omega arith))
]

-- With more rounds than the text has bytes, the scan of a word ends at a place where the word is
-- done, and more rounds change nothing.
pub word_from-done :
    (f g : ℕ) (v : Bool) (s : Bytes)
    → length s < f
    → length s < g
    → (word_step (word_from f v s).1 ≡ done_word) × (word_from f v s ≡ word_from g v s)
word_from-done f g v s h k = (word_from-ends f v s h, word_from-enough f g v s h k)
