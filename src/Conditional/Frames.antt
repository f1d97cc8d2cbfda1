-- ===== src/Conditional/Frames.antt =====
-- The levels in use as a stack, the innermost first: the abstract view of the arrays.
use gmake.Conditional.{Conditionals, any_ignoring}
use gmake.Prelude.{
  ℕ, zero, suc, ◌≤◌, ◌<◌, ◌≡◌, refl, ap, ◌∙◌, Bool, false, ◌||◌, not, List, [], ◌∷◌, ◌++◌, arith,
  length, get_or, set, ◌==◌,
}

-- The value of `ignoring` at a level, and that of `seen_else`.
pub record Frame : Type 0 where
  pub ignoring : ℕ
  pub seen_else : ℕ

-- the levels below the n-th
unfoldable pub below : ℕ → List ℕ → List ℕ → List Frame
below zero ig se = []
below (suc n) ig se = record { ignoring = get_or ig n 0; seen_else = get_or se n 0 } ∷ below n ig se

unfoldable pub frames : Conditionals → List Frame
unfolding below
frames s = below s.if_cmds s.ignoring s.seen_else

-- some level is being ignored
unfoldable pub blocked : List Frame → Bool
blocked [] = false
blocked (f ∷ fs) = not (f.ignoring == 0) || blocked fs

any_ignoring-suc :
    (n : ℕ) (ig : List ℕ)
    → any_ignoring (suc n) ig ≡ (not (get_or ig n 0 == 0) || any_ignoring n ig)
unfolding any_ignoring
any_ignoring-suc zero [] = refl
any_ignoring-suc zero (l ∷ ig) = ground arith
any_ignoring-suc (suc n) [] = refl
any_ignoring-suc (suc n) (l ∷ ig) = ground (arith, any_ignoring-suc n ig)

-- the search of the code, from the outermost level in, and the stack
pub any_ignoring-blocked : (n : ℕ) (ig se : List ℕ) → any_ignoring n ig ≡ blocked (below n ig se)
unfolding below blocked
any_ignoring-blocked zero ig se = unfold any_ignoring in refl
any_ignoring-blocked (suc n) ig se =
    any_ignoring-suc n ig ∙ ap (λ b. not (get_or ig n 0 == 0) || b) (any_ignoring-blocked n ig se)

pub get_or-set_ne : (xs : List ℕ) (i j v : ℕ) → j < i → get_or (set xs i v) j 0 ≡ get_or xs j 0
get_or-set_ne [] i j v h = refl
get_or-set_ne (x ∷ xs) zero j v h = elim h [ ]
get_or-set_ne (x ∷ xs) (suc i) zero v h = refl
get_or-set_ne (x ∷ xs) (suc i) (suc j) v h = get_or-set_ne xs i j v (omega arith)

pub get_or-set_self : (xs : List ℕ) (i v : ℕ) → i < length xs → get_or (set xs i v) i 0 ≡ v
get_or-set_self [] i v h = elim h [ ]
get_or-set_self (x ∷ xs) zero v h = refl
get_or-set_self (x ∷ xs) (suc i) v h = get_or-set_self xs i v (omega arith)

get_or-append : (xs ys : List ℕ) (i : ℕ) → i < length xs → get_or (xs ++ ys) i 0 ≡ get_or xs i 0
get_or-append [] ys i h = elim h [ ]
get_or-append (x ∷ xs) ys zero h = refl
get_or-append (x ∷ xs) ys (suc i) h = get_or-append xs ys i (omega arith)

-- writes at a level leave those below it alone
pub below-set_ignoring :
    (n : ℕ) (ig se : List ℕ) (i v : ℕ) → n ≤ i → below n (set ig i v) se ≡ below n ig se
unfolding below
below-set_ignoring zero ig se i v h = refl
below-set_ignoring (suc n) ig se i v h =
    rw (get_or-set_ne ig i n v h, below-set_ignoring n ig se i v (omega arith))

pub below-set_seen :
    (n : ℕ) (ig se : List ℕ) (i v : ℕ) → n ≤ i → below n ig (set se i v) ≡ below n ig se
unfolding below
below-set_seen zero ig se i v h = refl
below-set_seen (suc n) ig se i v h =
    rw (get_or-set_ne se i n v h, below-set_seen n ig se i v (omega arith))

pub below-append :
    (n : ℕ) (ig se xs ys : List ℕ)
    → n ≤ length ig
    → n ≤ length se
    → below n (ig ++ xs) (se ++ ys) ≡ below n ig se
unfolding below
below-append zero ig se xs ys h k = refl
below-append (suc n) ig se xs ys h k = rw (
  get_or-append ig xs n h,
  get_or-append se ys n k,
  below-append n ig se xs ys (omega arith) (omega arith),
)
