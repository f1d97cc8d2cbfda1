-- ===== src/Expand/Outcome.antt =====
-- Code of make-4.4/src/expand.c that does not run for ever: what its calls leave of the variables.
use gmake.Condition.{to_byte}
use gmake.Expand.{
  Expansion, unfinished, unterminated, fatal, references_itself, expanded, Functions, entered, done,
  append_to, to_matching, substitute,
}
use gmake.Expand.Weight.{Lighter, Lighter-refl, Lighter-trans, MayEnter, leave-Lighter}
use gmake.Hash.Rounds.{some_inj}
use gmake.Pattern.{find_percent}
use gmake.Prelude.{
  ℕ, suc, ◌+◌, ◌-◌, ◌*◌, ◌≤◌, ◌<◌, ◌≡◌, refl, ap, ◌⊎◌, inl, inr, Bool, true, false, not, ◌&&◌, List,
  [], ◌∷◌, some, Bytes, ◌==◌, if◌then◌else◌, arith, length, set, get_elem?, Bool-cases,
  Option-cases,
}
use gmake.Variables.{Variable}
use native.Mathlib.Nat.{le_trans, mul-le-mul_right}

-- The code does not run for ever, and calls no function that ends make: it returns with the variables it had, or ends
-- make itself.
unfoldable pub Finished : List Variable → Expansion → Type 0
Finished vars unfinished = ⊥
Finished vars unterminated = Unit
Finished vars fatal = ⊥
Finished vars (references_itself name) = Unit
Finished vars (expanded o after) = Lighter after vars

pub Finished_trans :
    (vs us : List Variable) (r : Expansion) → Lighter vs us → Finished vs r → Finished us r
unfolding Finished
Finished_trans vs us unfinished light fin = elim fin [ ]
Finished_trans vs us unterminated light fin = tt
Finished_trans vs us fatal light fin = elim fin [ ]
Finished_trans vs us (references_itself name) light fin = tt
Finished_trans vs us (expanded o after) light fin = Lighter-trans after vs us fin light

pub append_to-Finished :
    (vars : List Variable) (o : Bytes) (r : Expansion)
    → Finished vars r
    → Finished vars (append_to o r)
unfolding Finished
append_to-Finished vars o unfinished fin = elim fin [ ]
append_to-Finished vars o unterminated fin = tt
append_to-Finished vars o fatal fin = elim fin [ ]
append_to-Finished vars o (references_itself name) fin = tt
append_to-Finished vars o (expanded value after) fin = fin

pub substitute-Finished :
    (f : Functions) (expand : Bytes → List Variable → Expansion) (vars : List Variable)
    (o subst replace : Bytes) (r : Expansion)
    → Finished vars r
    → Finished vars (substitute f expand o subst replace r)
unfolding Finished substitute
substitute-Finished f expand vars o subst replace unfinished fin = elim fin [ ]
substitute-Finished f expand vars o subst replace unterminated fin = tt
substitute-Finished f expand vars o subst replace fatal fin = elim fin [ ]
substitute-Finished f expand vars o subst replace (references_itself name) fin = tt
substitute-Finished f expand vars o subst replace (expanded value after) fin =
    elim (Option-cases (find_percent subst).1) [
      | inl e ↦ rw (e, Finished) fin
      | inr (suffix, e) ↦ rw (e, Finished) fin
    ]

pub done-Finished :
    (place : ℕ) (vars : List Variable) (v : Variable) (r : Expansion)
    → get_elem? vars place ≡ some v
    → MayEnter v
    → Finished (set vars place (entered v)) r
    → Finished vars (done place r)
unfolding Finished done
done-Finished place vars v unfinished at may fin = elim fin [ ]
done-Finished place vars v unterminated at may fin = tt
done-Finished place vars v fatal at may fin = elim fin [ ]
done-Finished place vars v (references_itself name) at may fin = tt
done-Finished place vars v (expanded value after) at may fin =
    leave-Lighter place vars after v at may fin

pub if_Finished :
    (vars : List Variable) (b : Bool) (x y : Expansion)
    → (b ≡ true → Finished vars x)
    → (b ≡ false → Finished vars y)
    → Finished vars (if b then x else y)
if_Finished vars true x y p q = p refl
if_Finished vars false x y p q = q refl

pub here : (o : Bytes) (vars : List Variable) → Finished vars (expanded o vars)
unfolding Finished
here o vars = Lighter-refl vars

pub itself : (name : Bytes) (vars : List Variable) → Finished vars (references_itself name)
unfolding Finished
itself name vars = tt

pub never : (vars : List Variable) → Finished vars unterminated
unfolding Finished
never vars = tt

pub List-cases : (s : Bytes) → (s ≡ []) ⊎ ((c : ℕ) × (r : Bytes) × (s ≡ c ∷ r))
List-cases [] = inl refl
List-cases (c ∷ s) = inr (c, s, refl)

pub length-to_byte :
    (c : ℕ) (s : Bytes) → length (to_byte c s).0 + length (to_byte c s).1 ≡ length s
unfolding to_byte
length-to_byte c [] = omega arith
length-to_byte c (x ∷ s) = ground (arith, length-to_byte c s)

pub length-to_matching :
    (opener closer count : ℕ) (s inner p : Bytes)
    → to_matching opener closer count s ≡ some (inner, p)
    → (length inner + length p ≡ length s) × (0 < length p)
unfolding to_matching
length-to_matching opener closer count [] inner p e = cc
length-to_matching opener closer count (c ∷ s) inner p e =
    let deeper = if c == opener then count + 1 else if c == closer then count - 1 else count in
    elim (Bool-cases (not (c == opener) && (c == closer && count == 0))) [
      | inl t ↦
          let found = some_inj (rw t at e) in
          let first = ap (λ (r : Bytes × Bytes). length r.0) found in
          let second = ap (λ (r : Bytes × Bytes). length r.1) found in (omega arith, omega arith)
      | inr t ↦ elim (Option-cases (to_matching opener closer deeper s)) [
        | inl d ↦ let lost = rw (t, d) at e in cc
        | inr ((more, from), d) ↦
            let found = some_inj (rw (t, d) at e) in
            let first = ap (λ (r : Bytes × Bytes). length r.0) found in
            let second = ap (λ (r : Bytes × Bytes). length r.1) found in
            let parts = length-to_matching opener closer deeper s more from d in
            (omega arith, omega arith)
      ]
    ]

pub room_less : (a b m n : ℕ) → a ≤ b → b * suc m ≤ n → a * suc m ≤ n
room_less a b m n h room = le_trans (mul-le-mul_right (suc m) h) room

pub room_for : (a b m k n : ℕ) → a < b → k ≤ m → b * suc m ≤ n → a * suc m + k < n
room_for a b m k n h low room =
    let more : suc a * suc m ≤ n = le_trans (mul-le-mul_right (suc m) h) room in
    let sum : suc a * suc m ≡ a * suc m + suc m = grind arith in omega arith
